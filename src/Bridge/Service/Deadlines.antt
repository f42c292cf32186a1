-- ===== src/Bridge/Service/Deadlines.antt =====
-- The deadline of an operation of `BridgeService` and the waits that it begins (bridge/server.py).
use stavrobot_imcp_plugin.Prelude.{
  ℕ, zero, suc, ◌+◌, ◌-◌, ◌≤◌, ◌≡◌, refl, ap, Text, codes, false, Option, none, some, List, [], ◌∷◌,
  ◌++◌, All, arith, leb, if◌then◌else◌, Bool-cases, inl, inr,
}
use stavrobot_imcp_plugin.Json.{Value, str, Items, Fields, get}
use stavrobot_imcp_plugin.Bridge.Effects.{
  called, listed, History, World, Answer, Env, pure, ◌>>=◌, gets, emit, await_bounded,
}
use stavrobot_imcp_plugin.Bridge.Effects.Deadlines.{
  EndsBy, OnTime, OnTime-timed, HasTime-stamp, await-OnTime,
}
use stavrobot_imcp_plugin.Bridge.Effects.Keeps.{Keeps, keeps_rules}
use stavrobot_imcp_plugin.Bridge.Session.{Config, ensure_session_locked, mark_session_dead_locked}
use stavrobot_imcp_plugin.Bridge.Session.Deadlines.{
  ensure_session_locked-OnTime, mark_session_dead_locked-OnTime,
}
use stavrobot_imcp_plugin.Bridge.Responses.{
  Validated, valid, invalid, invalid_request, not_allowed, arguments_of, allows,
}
use stavrobot_imcp_plugin.Bridge.Service.Actions.{
  unavailable-Keeps, after_page-Keeps, list_failed-Keeps, health-Keeps, call_failed-Keeps,
  or_unknown_outcome-Keeps,
}
use stavrobot_imcp_plugin.Bridge.Service.{
  health, Sdk, call_failed, call_tool_method, dispatch, call_tool, list_failed, request_page,
  list_pages, operation_deadline_of, list_on, list_tools, execute_call, execute_operation, execute,
}

module _ (sdk : Sdk) (env : Env) (config : Config) (deadline : ℕ) (past : History) where
  abbrev Good : World → Type 0
  Good = OnTime deadline past

  ensure-Good : Keeps Good (ensure_session_locked env config (some deadline))
  ensure-Good = ensure_session_locked-OnTime deadline past env config

  mark-Good : Keeps Good (mark_session_dead_locked env config)
  mark-Good = mark_session_dead_locked-OnTime deadline past env config

  wait-Good :
      {A : Type 0} (answer : Answer A) (timeout : ℕ) → Keeps Good (await_bounded answer timeout)
  wait-Good = await-OnTime deadline past

  rest_of_call-Good :
      (timeout : ℕ)
      → Keeps Good (gets (λ w. w.history) >>= λ h. await_bounded (env.call_tool h) timeout)
  rest_of_call-Good timeout = search (keeps_rules, wait-Good)

  call_tool_method-Good :
      (s : ℕ) (name : Text) (arguments : Fields)
      → Keeps Good (call_tool_method sdk env config s name arguments (some deadline))
  unfolding call_tool_method
  call_tool_method-Good s name arguments =
      OnTime-timed deadline past config.call_timeout _ (λ timeout.
        HasTime-stamp deadline past (called s name arguments) timeout _ (λ now h. h)
          (rest_of_call-Good timeout))

  in_time : (od now : ℕ) → od ≤ deadline → leb od now ≡ false → now + (od - now) ≤ deadline
  in_time od now h k = ground arith

  rest_of_page-Good :
      (timeout : ℕ)
      → Keeps Good (gets (λ w. w.history) >>= λ h. await_bounded (env.list_tools h) timeout)
  rest_of_page-Good timeout = search (keeps_rules, wait-Good)

  request_page-Good :
      (s od now : ℕ) (cursor : Option Text)
      → od ≤ deadline
      → Keeps Good (request_page sdk env config s cursor od now)
  unfolding request_page ◌>>=◌ emit
  request_page-Good s od now cursor le = record {
    at = λ w h. elim (Bool-cases (leb od now)) [
      | inl e ↦ rw e h
      | inr e ↦ rw e (
          (rest_of_page-Good (od - now)).at
            (record w { history = listed s cursor now (od - now) ∷ w.history })
            (
              listed s cursor now (od - now) ∷ h.0,
              ap (λ t. listed s cursor now (od - now) ∷ t) h.1,
              (in_time od now le e, h.2),
            ))
    ];
  }

  list_pages-Good :
      (rounds s d : ℕ) (tools : Items) (cursor : Option Text) (seen : List Text)
      → d ≤ deadline
      → Keeps Good (list_pages sdk env config rounds s d tools cursor seen)
  unfolding list_pages
  list_pages-Good zero s d tools cursor seen le = search keeps_rules
  list_pages-Good (suc rounds) s d tools cursor seen le =
      rounds_of (λ t c n. list_pages-Good rounds s d t c n le)
    where
      rounds_of :
          ((tools : Items) (cursor : Option Text) (seen : List Text)
            → Keeps Good (list_pages sdk env config rounds s d tools cursor seen))
          → Keeps Good (list_pages sdk env config (suc rounds) s d tools cursor seen)
      rounds_of k =
          search (keeps_rules, request_page-Good, after_page-Keeps sdk env config mark-Good, k, le)
            depth 12

  operation_deadline_of-le :
      (now : ℕ) → operation_deadline_of sdk env config (some deadline) now ≤ deadline
  unfolding operation_deadline_of
  operation_deadline_of-le now = omega arith

  list_on-Good : (s : ℕ) → Keeps Good (list_on sdk env config (some deadline) s)
  unfolding list_on list_failed
  list_on-Good s =
      search
        (
          keeps_rules,
          list_pages-Good,
          operation_deadline_of-le,
          list_failed-Keeps sdk env config mark-Good,
        )
        depth 12

  list_tools-Good : Keeps Good (list_tools sdk env config (some deadline))
  unfolding list_tools
  list_tools-Good =
      search (keeps_rules, ensure-Good, unavailable-Keeps sdk env config mark-Good, list_on-Good)
        depth 12

  health-Good : Keeps Good (health sdk env config)
  health-Good = health-Keeps sdk env config mark-Good

  call_tool-Good :
      (name : Text) (arguments : Fields)
      → Keeps Good (call_tool sdk env config name arguments (some deadline))
  unfolding call_tool dispatch call_failed
  call_tool-Good name arguments =
      search
        (
          keeps_rules,
          ensure-Good,
          unavailable-Keeps sdk env config mark-Good,
          call_tool_method-Good,
          call_failed-Keeps sdk env config mark-Good,
          or_unknown_outcome-Keeps sdk env config mark-Good,
        )
        depth 12

  execute_call-Good :
      (request : Fields) (name : Validated)
      → Keeps Good (execute_call sdk env config request (some deadline) name)
  unfolding execute_call
  execute_call-Good request (invalid message) = search keeps_rules
  execute_call-Good request (valid name) = go (arguments_of (get (codes "arguments") request))
    where
      go :
          (o : Option Fields)
          → Keeps Good (elim o [
            | none ↦ pure (invalid_request (codes "arguments must be a JSON object") name)
            | some arguments ↦
                if allows config name
                then call_tool sdk env config name arguments (some deadline)
                else pure (not_allowed name)
          ])
      go none = search keeps_rules
      go (some arguments) = search (keeps_rules, call_tool-Good)

  execute_operation-Good :
      (request : Fields) (operation : Option Value)
      → Keeps Good (execute_operation sdk env config request (some deadline) operation)
  unfolding execute_operation
  execute_operation-Good request (some (str operation)) =
      search (keeps_rules, health-Good, list_tools-Good, execute_call-Good) depth 12
  execute_operation-Good request _ = search keeps_rules

-- With a deadline, whatever the request, the world and the environment: each wait that `execute` begins,
-- for a candidate, a context, an initialization, a tool call or a page, has a timeout that ends by the
-- deadline.
pub execute-OnTime :
    (sdk : Sdk) (env : Env) (config : Config) (request : Fields) (deadline : ℕ) (w : World)
    → (news : History) × ((execute sdk env config request (some deadline) w).1.history
        ≡ news ++ w.history)
      × All (EndsBy deadline) news
unfolding execute
execute-OnTime sdk env config request deadline w =
    (execute_operation-Good sdk env config deadline w.history request
        (get (codes "operation") request)).at
      w ([], refl, tt)
