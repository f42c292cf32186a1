-- ===== src/Bridge/Service/Safety.antt =====
-- The state of the session after an operation of `BridgeService` (bridge/server.py).
use stavrobot_imcp_plugin.Prelude.{
  ℕ, zero, suc, ◌-◌, ◌≡◌, refl, ◌⊎◌, inl, inr, Text, codes, text_eq, mem_text, false, Option, none,
  some, List, [], ◌∷◌, leb, if◌then◌else◌, Bool-cases,
}
use stavrobot_imcp_plugin.Json.{Value, str, obj, Items, nil, Fields, get}
use stavrobot_imcp_plugin.Response.Payload.{success_payload}
use stavrobot_imcp_plugin.Bridge.Effects.{
  Exc, Outcome, ok, raised, listed, World, Page, Env, M, pure, ◌>>=◌, lift,
}
use stavrobot_imcp_plugin.Bridge.Effects.Triples.{
  Triple, Triple-bind, Triple-catch, Triple-await_bounded, Triple-try_else,
}
use stavrobot_imcp_plugin.Bridge.Session.{Config}
use stavrobot_imcp_plugin.Bridge.Session.Lifecycle.{ensure_session_locked_lem}
use stavrobot_imcp_plugin.Bridge.Session.Setup.{
  live, IsDown, IsUp, IsSettled, IsRetired, UpOr, IsUp-IsCovered,
}
use stavrobot_imcp_plugin.Bridge.Responses.{
  invalid_mcp_response, listed_response, invalid_request, arguments_of, not_allowed,
  OperationResponse, Validated, valid, invalid, error_response, allows, append_items, read_page,
  max_list_pages, or_failure, health_fields,
}
use stavrobot_imcp_plugin.Bridge.Service.{
  Sdk, Handled, re_raise, unknown, report, classify, call_tool, list_failed_as, list_failed,
  request_page, after_page, finish_list, list_pages, operation_deadline_of, list_on, list_tools,
  health, execute_call, execute_operation, execute,
}
use stavrobot_imcp_plugin.Bridge.Service.Calls.{
  is_unknown, Settles, IsUp-advance, unknown_outcome-Settles, retire_and_raise-Settles, reported,
  mcp_error_response-Known, Known-Settles, unavailable-Settles, call_tool-Settles,
}

module _ (sdk : Sdk) (env : Env) (config : Config) where
  abbrev Listing : ℕ → {A : Type 0} → Outcome A → World → Type 0
  Listing s r w = IsUp s w

  abbrev Listed : ℕ → Outcome OperationResponse → World → Type 0
  Listed s (ok r) w = IsUp s w × (is_unknown r ≡ false)
  Listed s (raised e) w = IsUp s w

  request_page-IsUp :
      (s : ℕ) (cursor : Option Text) (operation_deadline now : ℕ)
      → Triple
          (IsUp s)
          (request_page sdk env config s cursor operation_deadline now)
          (λ r w. IsUp s w)
  unfolding request_page live
  request_page-IsUp s cursor operation_deadline now =
      elim (Bool-cases (leb operation_deadline now)) [
        | inl e ↦ rw e (record { at = λ w h. h })
        | inr e ↦ rw e (record {
          at = λ w h.
              (Triple-await_bounded {P = IsUp s} (λ r w. IsUp s w)
                  (env.list_tools (listed s cursor now (operation_deadline - now) ∷ w.history))
                  (operation_deadline - now) (λ r n w h. IsUp-advance sdk env config n h)).at
                (record w { history = listed s cursor now (operation_deadline - now) ∷ w.history })
                (record {
                  safe = (h.one_live, h.safe);
                  owned = h.owned;
                  session_is = h.session_is;
                  one_live = h.one_live;
                  not_dead = h.not_dead;
                });
        })
      ]

  lift-IsUp : {A : Type 0} (s : ℕ) (r : Outcome A) → Triple (IsUp s) (lift r) (λ r w. IsUp s w)
  unfolding lift
  lift-IsUp s r = record { at = λ w h. h }

  finish_list-Listed :
      (s : ℕ) (tools : Items) → Triple (IsUp s) (finish_list sdk env config tools) (Listed s)
  unfolding finish_list listed_response text_eq
  finish_list-Listed s tools =
      Triple-bind {A = Fields} (λ r w. IsUp s w) (Listed s) _
        (λ payload. pure (listed_response payload)) (lift-IsUp s _)
        (λ payload. record { at = λ w h. (h, refl) }) (λ e w h. h)

  after_page-Listed :
      (s : ℕ) (tools : Items) (next : Option Text) (seen : List Text)
      (next_round : Text → M OperationResponse)
      → ((c : Text) → Triple (IsUp s) (next_round c) (Listed s))
      → Triple (IsUp s) (after_page sdk env config tools next seen next_round) (Listed s)
  unfolding after_page invalid_mcp_response error_response text_eq
  after_page-Listed s tools none seen next_round k = finish_list-Listed s tools
  after_page-Listed s tools (some c) seen next_round k = elim (Bool-cases (mem_text c seen)) [
    | inl e ↦ rw e (record { at = λ w h. (h, refl) })
    | inr e ↦ rw e (k c)
  ]

  list_pages-Listed :
      (rounds s operation_deadline : ℕ) (tools : Items) (cursor : Option Text) (seen : List Text)
      → Triple
          (IsUp s)
          (list_pages sdk env config rounds s operation_deadline tools cursor seen)
          (Listed s)
  unfolding list_pages invalid_mcp_response error_response text_eq
  list_pages-Listed zero s d tools cursor seen = record { at = λ w h. (h, refl) }
  list_pages-Listed (suc rounds) s d tools cursor seen = record {
    at = λ w h.
        (Triple-bind {A = Page} (λ r w. IsUp s w) (Listed s) _ _
            (request_page-IsUp s cursor d w.clock)
            (λ page.
              Triple-bind {A = Items × Option Text} (λ r w. IsUp s w) (Listed s) _ _
                (lift-IsUp s (read_page config page))
                (λ entry. after_page-Listed s (append_items tools entry.0) entry.1 seen _ (λ c.
                  list_pages-Listed rounds s d (append_items tools entry.0) (some c) (c ∷ seen)))
                (λ e w h. h))
            (λ e w h. h)).at
          w h;
  }

  list_failed_as-Settles :
      (s : ℕ) (e : Exc) (handled : Handled)
      → Triple (IsUp s) (list_failed_as sdk env config e handled) Settles
  unfolding list_failed_as lift
  list_failed_as-Settles s e re_raise = record {
    at = λ w h. (retire_and_raise-Settles sdk env config e).at w (IsUp-IsCovered env config h);
  }
  list_failed_as-Settles s e unknown = record {
    at = λ w h.
        (unknown_outcome-Settles sdk env config (codes "list_tools")).at w
          (IsUp-IsCovered env config h);
  }
  list_failed_as-Settles s e (report error) = record {
    at = λ w h.
        Known-Settles sdk env config s _ w
          (mcp_error_response-Known sdk env config (codes "list_tools") error) h;
  }

  list_on-Settles :
      (s : ℕ) (deadline : Option ℕ) → Triple (IsUp s) (list_on sdk env config deadline s) Settles
  unfolding list_on list_failed
  list_on-Settles s deadline = record {
    at = λ w h.
        (Triple-catch (Listed s) Settles _ _
            (list_pages-Listed max_list_pages s
              (operation_deadline_of sdk env config deadline w.clock) nil none [])
            (λ e. list_failed_as-Settles s e (classify sdk env config e))
            (λ r w h. reported sdk env config s r w h.1 h.0)).at
          w h;
  }

  list_tools-Settles :
      (deadline : Option ℕ) → Triple IsSettled (list_tools sdk env config deadline) Settles
  unfolding list_tools
  list_tools-Settles deadline =
      Triple-try_else (UpOr IsDown) Settles _ _ _ (ensure_session_locked_lem env config deadline)
        (unavailable-Settles sdk env config (codes "list_tools")) (λ s. list_on-Settles s deadline)

  -- A response to which no session was needed.
  local_answer : (r : OperationResponse) → is_unknown r ≡ false → Triple IsSettled (pure r) Settles
  local_answer r e = record { at = λ w h. (h, λ t. cc) }

  health-Settles : Triple IsSettled (health sdk env config) Settles
  unfolding health lift text_eq ◌>>=◌
  health-Settles = record {
    at = λ w h.
        (Triple-bind {A = Fields} {P = IsSettled} (λ r w. IsSettled w) Settles
            (lift (or_failure (success_payload (obj (health_fields w))))) _
            (record { at = λ w h. h }) (λ payload. local_answer _ refl) (λ e w h. h)).at
          w h;
  }

  execute_call-Settles :
      (request : Fields) (deadline : Option ℕ) (name : Validated)
      → Triple IsSettled (execute_call sdk env config request deadline name) Settles
  unfolding execute_call invalid_request not_allowed error_response text_eq
  execute_call-Settles request deadline (invalid message) = local_answer _ refl
  execute_call-Settles request deadline (valid name) =
      go (arguments_of (get (codes "arguments") request))
    where
      go :
          (o : Option Fields)
          → Triple IsSettled
              (elim o [
                | none ↦ pure (invalid_request (codes "arguments must be a JSON object") name)
                | some arguments ↦
                    if allows config name
                    then call_tool sdk env config name arguments deadline
                    else pure (not_allowed name)
              ])
              Settles
      go none = local_answer _ refl
      go (some arguments) = elim (Bool-cases (allows config name)) [
        | inl e ↦ rw e (call_tool-Settles sdk env config name arguments deadline)
        | inr e ↦ rw e (local_answer _ refl)
      ]

  execute_operation-Settles :
      (request : Fields) (deadline : Option ℕ) (operation : Option Value)
      → Triple IsSettled (execute_operation sdk env config request deadline operation) Settles
  unfolding execute_operation invalid_request error_response
  execute_operation-Settles request deadline (some (str operation)) =
      elim (Bool-cases (text_eq operation (codes "health"))) [
        | inl e ↦ rw e health-Settles
        | inr e ↦ elim (Bool-cases (text_eq operation (codes "list_tools"))) [
          | inl e' ↦ rw (e, e') (list_tools-Settles deadline)
          | inr e' ↦ elim (Bool-cases (text_eq operation (codes "call_tool"))) [
            | inl e'' ↦ rw (e, e', e'') (execute_call-Settles request deadline _)
            | inr e'' ↦ rw (e, e', e'') (local_answer _ (unfold text_eq in refl))
          ]
        ]
      ]
  execute_operation-Settles request deadline none = local_answer _ (unfold text_eq in refl)
  execute_operation-Settles request deadline (some _) = local_answer _ (unfold text_eq in refl)

  pub execute-Settles :
      (request : Fields) (deadline : Option ℕ) (w : World)
      → IsSettled w
      → Settles
          (execute sdk env config request deadline w).0
          (execute sdk env config request deadline w).1
  unfolding execute
  execute-Settles request deadline w h =
      (execute_operation-Settles request deadline (get (codes "operation") request)).at w h

-- After an operation: the session is settled, and it is retired unless the outcome is known.
abbrev pub Ends : Outcome OperationResponse → World → Type 0
Ends (ok r) w = IsSettled w × ((is_unknown r ≡ false) ⊎ IsRetired w)
Ends (raised e) w = IsSettled w

Settles-Ends : (r : Outcome OperationResponse) (w : World) → Settles r w → Ends r w
Settles-Ends (raised e) w h = h
Settles-Ends (ok r) w h = elim (Bool-cases (is_unknown r)) [
  | inl e ↦ (h.0, inr (h.1 e))
  | inr e ↦ (h.0, inl e)
]

-- From a settled world, whatever the request, the deadline and the environment do: `execute` leaves
-- the world settled, whether it answers or raises, and where it answers that the outcome is unknown
-- the session is retired, with nothing open, marked dead, and the app unreachable.
pub execute-Ends :
    (sdk : Sdk) (env : Env) (config : Config) (request : Fields) (deadline : Option ℕ) (w : World)
    → IsSettled w
    → Ends
        (execute sdk env config request deadline w).0
        (execute sdk env config request deadline w).1
execute-Ends sdk env config request deadline w h =
    Settles-Ends _ _ (execute-Settles sdk env config request deadline w h)
