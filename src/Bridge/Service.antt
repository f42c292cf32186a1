-- ===== src/Bridge/Service.antt =====
-- The operations of `BridgeService` (bridge/server.py): `_health`, `_call_tool`, `_list_tools` and
-- `execute`. Each runs under the service's lock, but for `_health`.
pub mod Calls
pub mod Safety
pub mod Requests
pub mod Actions
pub mod Deadlines
pub mod Listing
use stavrobot_imcp_plugin.Prelude.{
  ℕ, zero, suc, ◌+◌, ◌-◌, Text, codes, text_eq, mem_text, Bool, true, false, ◌||◌, Option, none,
  some, List, [], ◌∷◌, ltb, leb, min, if◌then◌else◌,
}
use stavrobot_imcp_plugin.Json.{
  ℤ, pos, negsuc, Value, str, obj, arr, Items, nil, Fields, end, field, get,
}
use stavrobot_imcp_plugin.Response.Payload.{McpError, success_payload}
use stavrobot_imcp_plugin.Bridge.Effects.{
  Exc, timeout_error, cancelled_error, mcp_error, session_unavailable, failure, Outcome, ok, raised,
  called, listed, World, Page, ToolResult, Env, M, pure, raise, ◌>>=◌, ◌>>◌, catch, try_else, gets,
  emit, lift, await_bounded, bounded_phase_timeout,
}
use stavrobot_imcp_plugin.Bridge.Session.{Config, ensure_session_locked, mark_session_dead_locked}
use stavrobot_imcp_plugin.Bridge.Responses.{
  OperationResponse, status_ok, bad_request, forbidden, bad_gateway, Validated, valid, invalid,
  validate_tool_name, unavailable_response, unknown_outcome_response, mcp_error_response,
  error_response, tool_response, read_page, append_items, allows, select_tools, or_failure,
  max_list_pages, health_fields, invalid_mcp_response, listed_response, invalid_request,
  arguments_of, not_allowed,
}

-- What the SDK and the codec supply: the JSON-RPC codes that it uses for transport failures
-- (`_TRANSPORT_ERROR_CODES`), and the text of a UnicodeEncodeError.
pub record Sdk : Type 0 where
  pub is_transport_code : ℤ → Bool
  pub codec_message : Text → Text

pub data Handled : Type 0 where
  re_raise unknown : Handled
  report : McpError → Handled

module _ (sdk : Sdk) (env : Env) (config : Config) where
  -- The `except` clauses round a dispatched request.
  classify : Exc → Handled
  classify (mcp_error error) = if sdk.is_transport_code error.code then unknown else report error
  classify cancelled_error = re_raise
  classify _ = unknown

  -- Retire the session: the request may have been dispatched.
  pub unknown_outcome : Text → M OperationResponse
  unfolding ◌>>=◌
  unknown_outcome name = do
    mark_session_dead_locked env config
    pure (unknown_outcome_response name)

  pub retire_and_raise : Exc → M OperationResponse
  unfolding ◌>>=◌
  retire_and_raise e = do mark_session_dead_locked env config; raise e

  -- `_call_tool` answers an error that it cannot convert as an unknown outcome.
  pub report_call : Text → Outcome OperationResponse → M OperationResponse
  report_call name (ok response) = pure response
  report_call name (raised e) = unknown_outcome name

  pub call_failed_as : Text → Exc → Handled → M OperationResponse
  call_failed_as name e re_raise = retire_and_raise e
  call_failed_as name e unknown = unknown_outcome name
  call_failed_as name e (report error) = report_call name (mcp_error_response name error)

  call_failed : Text → Exc → M OperationResponse
  call_failed name e = call_failed_as name e (classify e)

  pub or_unknown_outcome : Text → Option OperationResponse → M OperationResponse
  or_unknown_outcome name none = unknown_outcome name
  or_unknown_outcome name (some response) = pure response

  -- `_call_tool_method`, under the smaller of the call timeout and the remaining deadline.
  call_tool_method : ℕ → Text → Fields → Option ℕ → M ToolResult
  unfolding ◌>>=◌ gets emit
  call_tool_method session name arguments deadline = do
    timeout ← bounded_phase_timeout config.call_timeout deadline
    now ← gets (λ w. w.clock)
    emit (called session name arguments now timeout)
    h ← gets (λ w. w.history)
    await_bounded (env.call_tool h) timeout

  -- `_call_tool` on an established session: the request, its exceptions, and the conversion of
  -- its result.
  dispatch : Text → Fields → Option ℕ → ℕ → M OperationResponse
  dispatch name arguments deadline session =
      try_else (call_tool_method session name arguments deadline) (call_failed name)
        (λ result. or_unknown_outcome name (tool_response name result))

  -- Why no session could be established.
  pub unavailable : Text → Exc → M OperationResponse
  unavailable name (session_unavailable app_reachable) =
      pure (unavailable_response name app_reachable)
  unavailable name cancelled_error = raise cancelled_error
  unavailable name _ = pure (unavailable_response name false)

  pub call_tool : Text → Fields → Option ℕ → M OperationResponse
  call_tool name arguments deadline =
      try_else (ensure_session_locked env config deadline) (unavailable name)
        (dispatch name arguments deadline)

  pub list_failed_as : Exc → Handled → M OperationResponse
  list_failed_as e re_raise = retire_and_raise e
  list_failed_as e unknown = unknown_outcome (codes "list_tools")
  list_failed_as e (report error) = lift (mcp_error_response (codes "list_tools") error)

  list_failed : Exc → M OperationResponse
  list_failed e = list_failed_as e (classify e)

  -- The request of one page, within what is left of the operation's time.
  request_page : ℕ → Option Text → ℕ → ℕ → M Page
  unfolding ◌>>=◌ gets emit
  request_page session cursor operation_deadline now =
      if leb operation_deadline now then raise timeout_error else (do
        emit (listed session cursor now (operation_deadline - now))
        h ← gets (λ w. w.history)
        await_bounded (env.list_tools h) (operation_deadline - now))

  pub finish_list : Items → M OperationResponse
  unfolding ◌>>=◌ lift or_failure
  finish_list tools = do
    payload ← lift (or_failure (success_payload (obj (field (codes "tools") (arr tools) end))))
    pure (listed_response payload)

  -- The end of a round: the operation ends, or goes on with the next cursor.
  pub after_page :
      Items → Option Text → List Text → (Text → M OperationResponse) → M OperationResponse
  after_page tools none seen next_round = finish_list tools
  after_page tools (some cursor) seen next_round =
      if mem_text cursor seen
      then pure (invalid_mcp_response (codes "repeated tools/list cursor"))
      else next_round cursor

  -- The rounds of the loop that are left, the tools so far, the cursor and the cursors seen.
  list_pages : ℕ → ℕ → ℕ → Items → Option Text → List Text → M OperationResponse
  unfolding ◌>>=◌ gets lift
  list_pages zero session operation_deadline tools cursor seen =
      pure (invalid_mcp_response (codes "tools/list returned too many pages"))
  list_pages (suc rounds) session operation_deadline tools cursor seen = do
    now ← gets (λ w. w.clock)
    page ← request_page session cursor operation_deadline now
    entry ← lift (read_page config page)
    after_page (append_items tools entry.0) entry.1 seen (λ c.
        list_pages rounds session operation_deadline (append_items tools entry.0) (some c)
          (c ∷ seen))

  operation_deadline_of : Option ℕ → ℕ → ℕ
  operation_deadline_of none now = now + config.call_timeout
  operation_deadline_of (some deadline) now = min (now + config.call_timeout) deadline

  -- `_list_tools` on an established session.
  list_on : Option ℕ → ℕ → M OperationResponse
  unfolding ◌>>=◌ gets operation_deadline_of
  list_on deadline session = do
    now ← gets (λ w. w.clock)
    catch (list_pages max_list_pages session (operation_deadline_of deadline now) nil none [])
        list_failed

  pub list_tools : Option ℕ → M OperationResponse
  list_tools deadline =
      try_else (ensure_session_locked env config deadline) (unavailable (codes "list_tools"))
        (list_on deadline)

  -- `_health` takes no lock and changes nothing.
  pub health : M OperationResponse
  unfolding gets lift or_failure
  health = do
    fields ← gets health_fields
    payload ← lift (or_failure (success_payload (obj fields)))
    pure (record {
      payload = payload;
      status_code = status_ok;
      tool_name = codes "health";
      log_status = codes "ok";
    })

  execute_call : Fields → Option ℕ → Validated → M OperationResponse
  execute_call request deadline (invalid message) = pure (invalid_request message (codes "bridge"))
  execute_call request deadline (valid name) =
      elim (arguments_of (get (codes "arguments") request)) [
        | none ↦ pure (invalid_request (codes "arguments must be a JSON object") name)
        | some arguments ↦
            if allows config name
            then call_tool name arguments deadline
            else pure (not_allowed name)
      ]

  execute_operation : Fields → Option ℕ → Option Value → M OperationResponse
  execute_operation request deadline (some (str operation)) =
      if text_eq operation (codes "health")
      then health
      else if text_eq operation (codes "list_tools")
      then list_tools deadline
      else if text_eq operation (codes "call_tool")
      then execute_call request deadline
          (validate_tool_name sdk.codec_message (get (codes "name") request))
      else pure (invalid_request (codes "unknown operation") (codes "bridge"))
  execute_operation request deadline _ =
      pure (invalid_request (codes "operation must be a string") (codes "bridge"))

  pub execute : Fields → Option ℕ → M OperationResponse
  execute request deadline = execute_operation request deadline (get (codes "operation") request)
