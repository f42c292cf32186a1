-- ===== src/Bridge/Service/Actions.antt =====
-- The parts of `BridgeService`'s operations that begin no wait (bridge/server.py).
use stavrobot_imcp_plugin.Prelude.{Text, codes, Option, none, some, List}
use stavrobot_imcp_plugin.Json.{Items}
use stavrobot_imcp_plugin.Bridge.Effects.{
  Exc, cancelled_error, session_unavailable, Outcome, ok, raised, World, Env, M,
}
use stavrobot_imcp_plugin.Bridge.Effects.Keeps.{Keeps, keeps_rules}
use stavrobot_imcp_plugin.Bridge.Session.{Config, mark_session_dead_locked}
use stavrobot_imcp_plugin.Bridge.Responses.{OperationResponse, mcp_error_response}
use stavrobot_imcp_plugin.Bridge.Service.{
  Sdk, Handled, re_raise, unknown, report, unknown_outcome, retire_and_raise, report_call,
  call_failed_as, or_unknown_outcome, unavailable, list_failed_as, after_page, finish_list, health,
}

-- A property that retiring the session keeps.
module _ (sdk : Sdk) (env : Env) (config : Config) {P : World → Type 0}
    (mark : Keeps P (mark_session_dead_locked env config)) where
  pub unknown_outcome-Keeps : (name : Text) → Keeps P (unknown_outcome sdk env config name)
  unfolding unknown_outcome
  unknown_outcome-Keeps name = search (keeps_rules, mark)

  pub retire_and_raise-Keeps : (e : Exc) → Keeps P (retire_and_raise sdk env config e)
  unfolding retire_and_raise
  retire_and_raise-Keeps e = search (keeps_rules, mark)

  pub unavailable-Keeps : (name : Text) (e : Exc) → Keeps P (unavailable sdk env config name e)
  unfolding unavailable
  unavailable-Keeps name (session_unavailable a) = search keeps_rules
  unavailable-Keeps name cancelled_error = search keeps_rules
  unavailable-Keeps name _ = search keeps_rules

  pub finish_list-Keeps : (tools : Items) → Keeps P (finish_list sdk env config tools)
  unfolding finish_list
  finish_list-Keeps tools = search keeps_rules

  pub after_page-Keeps :
      (tools : Items) (next : Option Text) (seen : List Text)
      (next_round : Text → M OperationResponse)
      → ((c : Text) → Keeps P (next_round c))
      → Keeps P (after_page sdk env config tools next seen next_round)
  unfolding after_page
  after_page-Keeps tools none seen next_round k = finish_list-Keeps tools
  after_page-Keeps tools (some c) seen next_round k = search (keeps_rules, k)

  pub list_failed-Keeps :
      (e : Exc) (handled : Handled) → Keeps P (list_failed_as sdk env config e handled)
  unfolding list_failed_as
  list_failed-Keeps e re_raise = retire_and_raise-Keeps e
  list_failed-Keeps e unknown = unknown_outcome-Keeps (codes "list_tools")
  list_failed-Keeps e (report error) = search keeps_rules

  pub health-Keeps : Keeps P (health sdk env config)
  unfolding health
  health-Keeps = search keeps_rules

  pub report_call-Keeps :
      (name : Text) (r : Outcome OperationResponse) → Keeps P (report_call sdk env config name r)
  unfolding report_call
  report_call-Keeps name (ok r) = search keeps_rules
  report_call-Keeps name (raised e) = unknown_outcome-Keeps name

  pub call_failed-Keeps :
      (name : Text) (e : Exc) (handled : Handled)
      → Keeps P (call_failed_as sdk env config name e handled)
  unfolding call_failed_as
  call_failed-Keeps name e re_raise = retire_and_raise-Keeps e
  call_failed-Keeps name e unknown = unknown_outcome-Keeps name
  call_failed-Keeps name e (report error) = report_call-Keeps name (mcp_error_response name error)

  pub or_unknown_outcome-Keeps :
      (name : Text) (o : Option OperationResponse)
      → Keeps P (or_unknown_outcome sdk env config name o)
  unfolding or_unknown_outcome
  or_unknown_outcome-Keeps name none = unknown_outcome-Keeps name
  or_unknown_outcome-Keeps name (some r) = search keeps_rules
