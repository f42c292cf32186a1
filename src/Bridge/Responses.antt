-- ===== src/Bridge/Responses.antt =====
-- The pure parts of `BridgeService` (bridge/server.py): its responses, `_validate_tool_name`,
-- `allows`, `_page_tools` and the selection of a page's tools.
pub mod Names
pub mod Selection
use stavrobot_imcp_plugin.Prelude.{
  ℕ, Text, codes, mem_text, has_code, Bool, true, false, ◌&&◌, ◌||◌, Option, none, some, List, [],
  ◌∷◌, length, ltb, is_some, if◌then◌else◌,
}
use stavrobot_imcp_plugin.Json.{Value, null, bool, str, obj, Items, nil, cons, Fields, end, field}
use stavrobot_imcp_plugin.Json.Dump.{Bytes, utf8}
use stavrobot_imcp_plugin.Json.Convert.{json_value}
use stavrobot_imcp_plugin.Response.Payload.{
  McpError, error_payload, mcp_error_payload, unknown_outcome_payload, max_tool_name_bytes,
}
use stavrobot_imcp_plugin.Bridge.Effects.{
  failure, Outcome, ok, raised, World, Found, absent, found, mistyped, Tool, Page, ToolResult,
}
use stavrobot_imcp_plugin.Bridge.Session.{Config}

pub record OperationResponse : Type 0 where
  pub payload : Fields
  pub status_code : ℕ
  pub tool_name : Text
  pub log_status : Text

-- `http.HTTPStatus`.
abbrev pub status_ok : ℕ
status_ok = 200

abbrev pub bad_request : ℕ
bad_request = 400

abbrev pub forbidden : ℕ
forbidden = 403

abbrev pub bad_gateway : ℕ
bad_gateway = 502

abbrev pub service_unavailable : ℕ
service_unavailable = 503

-- What `_validate_tool_name` accepts, or the text of its ValueError.
pub data Validated : Type 0 where
  valid : Text → Validated
  invalid : Text → Validated

utf8_longer : ℕ → Option Bytes → Validated → Validated → Validated → Validated
utf8_longer n none encode_error long short = encode_error
utf8_longer n (some bs) encode_error long short = if ltb n (length bs) then long else short

-- A lone surrogate makes `name.encode` raise a UnicodeEncodeError, a ValueError whose text is the
-- codec's and is a parameter here.
module _ (codec_message : Text → Text) where
  validate_text : Text → Validated
  unfolding utf8_longer
  validate_text [] = invalid (codes "name must be a non-empty string")
  validate_text (c ∷ s) =
      if has_code 0 (c ∷ s)
      then invalid (codes "name contains a null byte")
      else utf8_longer max_tool_name_bytes (utf8 (c ∷ s)) (invalid (codec_message (c ∷ s)))
          (invalid (codes "name is too long")) (valid (c ∷ s))

  unfoldable pub validate_tool_name : Option Value → Validated
  unfolding validate_text
  validate_tool_name (some (str s)) = validate_text s
  validate_tool_name _ = invalid (codes "name must be a non-empty string")

unfoldable pub unavailable_response : Text → Bool → OperationResponse
unavailable_response name app_reachable = record {
  payload =
      error_payload (codes "mcp_unavailable") (codes "MCP session unavailable")
        (field (codes "app_reachable") (bool app_reachable) end);
  status_code = service_unavailable;
  tool_name = name;
  log_status = codes "unavailable";
}

unfoldable pub unknown_outcome_response : Text → OperationResponse
unknown_outcome_response name = record {
  payload = unknown_outcome_payload;
  status_code = bad_gateway;
  tool_name = name;
  log_status = codes "unknown_outcome";
}

-- A failure to convert the error's data is raised.
unfoldable pub mcp_error_response : Text → McpError → Outcome OperationResponse
mcp_error_response name error = elim (mcp_error_payload error) [
  | none ↦ raised failure
  | some payload ↦ ok (record {
    payload = payload;
    status_code = bad_gateway;
    tool_name = name;
    log_status = codes "mcp_error";
  })
]

unfoldable pub error_response : Text → Text → Text → ℕ → Text → OperationResponse
error_response code message name status log = record {
  payload = error_payload code message end;
  status_code = status;
  tool_name = name;
  log_status = log;
}

tool_payload : Value → Fields
tool_payload dumped =
    field (codes "ok") (bool true)
      (field (codes "result") dumped (field (codes "truncated") (bool false) end))

-- The envelope of a tool's result; `none`: the result cannot be converted.
unfoldable pub tool_response : Text → ToolResult → Option OperationResponse
unfolding tool_payload
tool_response name result = elim (json_value result.content) [
  | none ↦ none
  | some dumped ↦ some (record {
    payload = tool_payload dumped;
    status_code = status_ok;
    tool_name = name;
    log_status = if result.is_error then codes "mcp_tool_error" else codes "ok";
  })
]

-- `_page_tools`.
unfoldable pub page_tools : Found (List Tool) → Outcome (List Tool)
page_tools absent = ok []
page_tools (found tools) = ok tools
page_tools mistyped = raised failure

unfoldable pub page_cursor : Found Text → Outcome (Option Text)
page_cursor absent = ok none
page_cursor (found cursor) = ok (some cursor)
page_cursor mistyped = raised failure

unfoldable pub append_items : Items → Items → Items
append_items nil ys = ys
append_items (cons x xs) ys = cons x (append_items xs ys)

-- `"*" in self._allowlist or name in self._allowlist`.
unfoldable pub allows : Config → Text → Bool
allows config name = mem_text (codes "*") config.allowlist || mem_text name config.allowlist

allowed_name : Config → Option Text → Bool
unfolding allows
allowed_name config none = false
allowed_name config (some name) = allows config name

-- The tools of a page that are allowed, converted; `none`: one of them cannot be converted.
unfoldable pub select_tools : Config → List Tool → Option Items
unfolding allowed_name
select_tools config [] = some nil
select_tools config (tool ∷ tools) =
    let rest = select_tools config tools in
    if allowed_name config tool.name
    then (elim (json_value tool.content) [
      | none ↦ none
      | some v ↦ elim rest [ none ↦ none | some vs ↦ some (cons v vs) ]
    ])
    else rest

unfoldable pub or_failure : {A : Type 0} → Option A → Outcome A
or_failure none = raised failure
or_failure (some a) = ok a

-- What the loop of `_list_tools` takes from a page: the converted tools, and the next cursor.
unfoldable pub read_page : Config → Page → Outcome (Items × Option Text)
unfolding page_tools page_cursor select_tools
read_page config page = elim (page_tools page.raw_tools) [
  | raised e ↦ raised e
  | ok raw ↦ elim (page_cursor page.raw_cursor) [
    | raised e ↦ raised e
    | ok next ↦ elim (select_tools config raw) [
      | none ↦ raised failure
      | some more ↦ ok (more, next)
    ]
  ]
]

abbrev pub max_list_pages : ℕ
max_list_pages = 1024

unfoldable pub health_fields : World → Fields
health_fields w = field (codes "bridge_up") (bool true) (
    field (codes "mcp_session_up")
      (bool (is_some w.session && (if w.session_known_dead then false else true)))
      (field (codes "imcp_app_reachable")
        (elim w.last_app_reachable [ none ↦ null | some b ↦ bool b ]) end))

unfoldable pub invalid_mcp_response : Text → OperationResponse
invalid_mcp_response message =
    error_response (codes "invalid_mcp_response") message (codes "list_tools") bad_gateway
      (codes "error")

unfoldable pub listed_response : Fields → OperationResponse
listed_response payload = record {
  payload = payload;
  status_code = status_ok;
  tool_name = codes "list_tools";
  log_status = codes "ok";
}

unfoldable pub invalid_request : Text → Text → OperationResponse
invalid_request message name =
    error_response (codes "invalid_request") message name bad_request (codes "error")

-- `isinstance(arguments, dict)`, where an absent key is an empty object.
unfoldable pub arguments_of : Option Value → Option Fields
arguments_of none = some end
arguments_of (some (obj fs)) = some fs
arguments_of (some _) = none

unfoldable pub not_allowed : Text → OperationResponse
not_allowed name =
    error_response (codes "tool_not_allowed") (codes "tool is not allowlisted") name forbidden
      (codes "rejected")
