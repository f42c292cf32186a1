-- ===== src/Bridge/Service/Calls.antt =====
-- The state of the session after a tool call of `BridgeService` (bridge/server.py).
use stavrobot_imcp_plugin.Prelude.{
  ℕ, ◌+◌, ◌≡◌, refl, inl, inr, Text, codes, text_eq, Bool, true, false, Option, none, some, ◌∷◌,
  if◌then◌else◌, Option-cases,
}
use stavrobot_imcp_plugin.Json.{Fields}
use stavrobot_imcp_plugin.Response.Payload.{McpError, mcp_error_payload}
use stavrobot_imcp_plugin.Json.Convert.{json_value}
use stavrobot_imcp_plugin.Bridge.Effects.{
  Exc, timeout_error, cancelled_error, mcp_error, session_unavailable, failure, Outcome, ok, raised,
  called, World, ToolResult, Env,
}
use stavrobot_imcp_plugin.Bridge.Effects.Triples.{
  Triple, Triple-bind, Triple-await_bounded, Triple-try_else, Triple-bounded_phase_timeout,
}
use stavrobot_imcp_plugin.Bridge.Session.{Config}
use stavrobot_imcp_plugin.Bridge.Session.Lifecycle.{
  ensure_session_locked_lem, mark_session_dead_locked_lem,
}
use stavrobot_imcp_plugin.Bridge.Session.Setup.{
  live, IsDown, IsUp, IsCovered, IsSettled, IsRetired, UpOr, IsUp-IsCovered,
}
use stavrobot_imcp_plugin.Bridge.Responses.{
  OperationResponse, unavailable_response, mcp_error_response, tool_response,
}
use stavrobot_imcp_plugin.Bridge.Service.{
  Sdk, Handled, re_raise, unknown, report, classify, unknown_outcome, retire_and_raise, report_call,
  call_failed_as, call_failed, or_unknown_outcome, call_tool_method, dispatch, unavailable,
  call_tool,
}

-- The response is the one for an unknown outcome.
abbrev pub is_unknown : OperationResponse → Bool
is_unknown r = text_eq r.log_status (codes "unknown_outcome")

-- After an operation: the session is settled, and retired if the outcome is unknown.
abbrev pub Settles : Outcome OperationResponse → World → Type 0
Settles (ok r) w = IsSettled w × (is_unknown r ≡ true → IsRetired w)
Settles (raised e) w = IsSettled w

module _ (sdk : Sdk) (env : Env) (config : Config) where
  pub IsUp-advance :
      {s : ℕ} {w : World} (n : ℕ) → IsUp s w → IsUp s (record w { clock = w.clock + n })
  IsUp-advance n h = record {
    safe = h.safe;
    owned = h.owned;
    session_is = h.session_is;
    one_live = h.one_live;
    not_dead = h.not_dead;
  }

  call_tool_method-IsUp :
      (s : ℕ) (name : Text) (arguments : Fields) (deadline : Option ℕ)
      → Triple
          (IsUp s)
          (call_tool_method sdk env config s name arguments deadline)
          (λ r w. IsUp s w)
  unfolding call_tool_method live
  call_tool_method-IsUp s name arguments deadline =
      Triple-bind (λ r w. IsUp s w) (λ r w. IsUp s w) _ _
        (Triple-bounded_phase_timeout config.call_timeout deadline)
        (λ timeout. record {
          at = λ w h.
              (Triple-await_bounded {P = IsUp s} (λ r w. IsUp s w)
                  (env.call_tool (called s name arguments w.clock timeout ∷ w.history)) timeout
                  (λ r n w h. IsUp-advance n h)).at
                (record w { history = called s name arguments w.clock timeout ∷ w.history })
                (record {
                  safe = (h.one_live, h.safe);
                  owned = h.owned;
                  session_is = h.session_is;
                  one_live = h.one_live;
                  not_dead = h.not_dead;
                });
        })
        (λ e w h. h)

  pub unknown_outcome-Settles :
      (name : Text) → Triple IsCovered (unknown_outcome sdk env config name) Settles
  unfolding unknown_outcome
  unknown_outcome-Settles name =
      Triple-bind (λ r w. IsRetired w × (r ≡ ok tt)) Settles _ _
        (mark_session_dead_locked_lem env config)
        (λ _. record { at = λ w h. (inl h.0.down, λ _. h.0) }) (λ e w h. cc h.1)

  pub retire_and_raise-Settles :
      (e : Exc) → Triple IsCovered (retire_and_raise sdk env config e) Settles
  unfolding retire_and_raise
  retire_and_raise-Settles e =
      Triple-bind (λ r w. IsRetired w × (r ≡ ok tt)) Settles _ _
        (mark_session_dead_locked_lem env config) (λ _. record { at = λ w h. inl h.0.down })
        (λ e w h. cc h.1)

  -- A response that is not the one for an unknown outcome.
  pub reported :
      (s : ℕ) (r : OperationResponse) (w : World)
      → is_unknown r ≡ false
      → IsUp s w
      → Settles (ok r) w
  reported s r w e h = (inr (s, h), λ t. cc)

  status_known :
      (b : Bool)
      → text_eq (if b then codes "mcp_tool_error" else codes "ok") (codes "unknown_outcome") ≡ false
  unfolding text_eq
  status_known true = refl
  status_known false = refl

  abbrev Known : Outcome OperationResponse → Type 0
  Known (ok r) = is_unknown r ≡ false
  Known (raised e) = Unit

  pub mcp_error_response-Known :
      (name : Text) (error : McpError) → Known (mcp_error_response name error)
  unfolding mcp_error_response text_eq
  mcp_error_response-Known name error = elim (Option-cases (mcp_error_payload error)) [
    | inl e ↦ rw (e, mcp_error_response) tt
    | inr (payload, e) ↦ rw (e, mcp_error_response) refl
  ]

  report_call-Settles :
      (s : ℕ) (name : Text) (r : Outcome OperationResponse)
      → Known r
      → Triple (IsUp s) (report_call sdk env config name r) Settles
  unfolding report_call
  report_call-Settles s name (ok r) k = record { at = λ w h. reported s r w k h }
  report_call-Settles s name (raised e) k = record {
    at = λ w h. (unknown_outcome-Settles name).at w (IsUp-IsCovered env config h);
  }

  call_failed_as-Settles :
      (s : ℕ) (name : Text) (e : Exc) (handled : Handled)
      → Triple (IsUp s) (call_failed_as sdk env config name e handled) Settles
  unfolding call_failed_as
  call_failed_as-Settles s name e re_raise = record {
    at = λ w h. (retire_and_raise-Settles e).at w (IsUp-IsCovered env config h);
  }
  call_failed_as-Settles s name e unknown = record {
    at = λ w h. (unknown_outcome-Settles name).at w (IsUp-IsCovered env config h);
  }
  call_failed_as-Settles s name e (report error) =
      report_call-Settles s name _ (mcp_error_response-Known name error)

  pub Known-Settles :
      (s : ℕ) (r : Outcome OperationResponse) (w : World) → Known r → IsUp s w → Settles r w
  Known-Settles s (ok r) w k h = reported s r w k h
  Known-Settles s (raised e) w k h = inr (s, h)

  abbrev KnownIf : Option OperationResponse → Type 0
  KnownIf none = Unit
  KnownIf (some r) = is_unknown r ≡ false

  tool_response-Known : (name : Text) (result : ToolResult) → KnownIf (tool_response name result)
  unfolding tool_response
  tool_response-Known name result = elim (Option-cases (json_value result.content)) [
    | inl e ↦ rw (e, tool_response) tt
    | inr (dumped, e) ↦ rw (e, tool_response) (status_known result.is_error)
  ]

  or_unknown_outcome-Settles :
      (s : ℕ) (name : Text) (o : Option OperationResponse)
      → KnownIf o
      → Triple (IsUp s) (or_unknown_outcome sdk env config name o) Settles
  unfolding or_unknown_outcome
  or_unknown_outcome-Settles s name none k = record {
    at = λ w h. (unknown_outcome-Settles name).at w (IsUp-IsCovered env config h);
  }
  or_unknown_outcome-Settles s name (some r) k = record { at = λ w h. reported s r w k h }

  dispatch-Settles :
      (s : ℕ) (name : Text) (arguments : Fields) (deadline : Option ℕ)
      → Triple (IsUp s) (dispatch sdk env config name arguments deadline s) Settles
  unfolding dispatch call_failed
  dispatch-Settles s name arguments deadline =
      Triple-try_else (λ r w. IsUp s w) Settles _ _ _
        (call_tool_method-IsUp s name arguments deadline)
        (λ e. call_failed_as-Settles s name e (classify sdk env config e))
        (λ result. or_unknown_outcome-Settles s name _ (tool_response-Known name result))

  pub unavailable-Settles :
      (name : Text) (e : Exc) → Triple IsDown (unavailable sdk env config name e) Settles
  unfolding unavailable unavailable_response text_eq
  unavailable-Settles name (session_unavailable app) = record { at = λ w h. (inl h, λ t. cc) }
  unavailable-Settles name cancelled_error = record { at = λ w h. inl h }
  unavailable-Settles name timeout_error = record { at = λ w h. (inl h, λ t. cc) }
  unavailable-Settles name (mcp_error m) = record { at = λ w h. (inl h, λ t. cc) }
  unavailable-Settles name failure = record { at = λ w h. (inl h, λ t. cc) }

  pub call_tool-Settles :
      (name : Text) (arguments : Fields) (deadline : Option ℕ)
      → Triple IsSettled (call_tool sdk env config name arguments deadline) Settles
  unfolding call_tool
  call_tool-Settles name arguments deadline =
      Triple-try_else (UpOr IsDown) Settles _ _ _ (ensure_session_locked_lem env config deadline)
        (unavailable-Settles name) (λ s. dispatch-Settles s name arguments deadline)
  -- What the loop of `_list_tools` leaves, before its `except` clauses.
