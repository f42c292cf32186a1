-- ===== src/Response/Payload.antt =====
-- The response envelopes: `_error_payload`, `_success_payload`, `_mcp_error_payload`,
-- `_unknown_outcome_payload`, and `_safe_log_tool_name` (bridge/server.py).
use stavrobot_imcp_plugin.Prelude.{
  ℕ, Text, codes, Bool, true, false, ◌||◌, Option, some, [], ◌∷◌, take, has_code, if◌then◌else◌,
}
use stavrobot_imcp_plugin.Json.{ℤ, Value, bool, int, str, obj, Fields, end, field, put}
use stavrobot_imcp_plugin.Json.Dump.{◌>>=◌}
use stavrobot_imcp_plugin.Json.Convert.{json_value}

-- `mapping.update(details)`.
unfoldable pub update : Fields → Fields → Fields
unfolding put
update fs end = fs
update fs (field k v ds) = update (put k v fs) ds

-- Without details `details` is empty.
unfoldable pub error_payload : Text → Text → Fields → Fields
unfolding update
error_payload code message details = field (codes "ok") (bool false) (
    field (codes "error")
      (obj (
        update (field (codes "code") (str code) (field (codes "message") (str message) end))
          details))
      (field (codes "truncated") (bool false) end))

-- `none`: the result cannot be converted.
unfoldable pub success_payload : Value → Option Fields
unfolding json_value
success_payload result = do
  v ← json_value result
  some (
      field (codes "ok") (bool true)
        (field (codes "result") v (field (codes "truncated") (bool false) end)))

-- The SDK's JSON-RPC error.
pub record McpError : Type 0 where
  pub code : ℤ
  pub message : Text
  pub payload : Value

unfoldable pub mcp_error_payload : McpError → Option Fields
unfolding json_value
mcp_error_payload e = do
  d ← json_value e.payload
  some (
      field (codes "ok") (bool false) (
        field (codes "error")
          (obj (
            field (codes "kind") (str (codes "mcp")) (
              field (codes "code") (int e.code)
                (field (codes "message") (str e.message) (field (codes "data") d end)))))
          (field (codes "truncated") (bool false) end)))

unfoldable pub unknown_outcome_payload : Fields
unfolding error_payload
unknown_outcome_payload =
    error_payload (codes "unknown_outcome")
      (codes "tool call outcome is unknown; the call was not retried")
      (field (codes "retryable") (bool false) end)

abbrev pub max_tool_name_bytes : ℕ
max_tool_name_bytes = 256

-- `"".join(c if c.isalnum() or c in "._-" else "_" for c in value)`; `is_alnum` is Python's table
-- of the Unicode letters and digits.
unfoldable pub safe_characters : (ℕ → Bool) → Text → Text
safe_characters is_alnum [] = []
safe_characters is_alnum (c ∷ s) =
    (if is_alnum c || has_code c (codes "._-") then c else b'_') ∷ safe_characters is_alnum s

or_unknown : Text → Text
or_unknown [] = codes "unknown"
or_unknown (c ∷ s) = c ∷ s

unfoldable pub safe_log_tool_name : (ℕ → Bool) → Text → Text
unfolding safe_characters or_unknown
safe_log_tool_name is_alnum value =
    or_unknown (take max_tool_name_bytes (safe_characters is_alnum value))
