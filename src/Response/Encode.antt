-- ===== src/Response/Encode.antt =====
-- `_encode_json` (bridge/server.py).
pub mod Limit
pub mod Retains
use stavrobot_imcp_plugin.Prelude.{
  ℕ, ◌-◌, ◌*◌, Text, codes, Bool, true, false, Option, none, some, [], ◌∷◌, length, leb, ltb,
  is_some, if◌then◌else◌,
}
use stavrobot_imcp_plugin.Json.{Value, null, bool, str, obj, Fields, end, field, get, put}
use stavrobot_imcp_plugin.Json.Dump.{Bytes, dump_json}
use stavrobot_imcp_plugin.Response.Bounded.{bounded_json_value}

abbrev pub max_response_bytes : ℕ
max_response_bytes = 256 * 1024

-- The bytes and the `truncated` flag, or the RuntimeError of the last guard.
pub data Encoded : Type 0 where
  sent : Bytes → Bool → Encoded
  runtime_error : Encoded

unfoldable pub nested_key : Fields → Option Text
unfolding get
nested_key fs =
    if is_some (get (codes "result") fs)
    then some (codes "result")
    else if is_some (get (codes "error") fs)
    then some (codes "error")
    else none

-- `len(_dump_json(envelope)) - len(b"null")`, or `limit` where the envelope cannot be dumped.
unfoldable pub overhead : ℕ → Fields → Text → ℕ
unfolding dump_json put
overhead limit truncated key = elim (dump_json (obj (put key null truncated))) [
  | none ↦ limit
  | some bs ↦ length bs - 4
]

-- `compacted if compacted is not None else {}`: a null that was kept is `None` too.
compacted_or_empty : Option (Value × Bytes) → Value
compacted_or_empty none = obj end
compacted_or_empty (some (null, _)) = obj end
compacted_or_empty (some (v, _)) = v

-- The nested value replaced by what fits in the rest of the budget.
unfoldable pub prune_nested : ℕ → Fields → Text → Fields
unfolding overhead bounded_json_value compacted_or_empty put get
prune_nested limit truncated key =
    put key
      (compacted_or_empty (elim (get key truncated) [
        | none ↦ none
        | some nested ↦ bounded_json_value nested (limit - overhead limit truncated key)
      ]))
      truncated

unfoldable pub truncate_payload : ℕ → Fields → Fields
unfolding nested_key prune_nested put
truncate_payload limit payload =
    let truncated = put (codes "truncated") (bool true) payload in
    elim (nested_key truncated) [ none ↦ truncated | some key ↦ prune_nested limit truncated key ]

unfoldable pub fallback : Fields
fallback = field (codes "ok") (bool false) (
    field (codes "error")
      (obj (
        field (codes "code") (str (codes "response_too_large")) (
          field (codes "message") (str (codes "response exceeded the configured size limit")) end)))
      (field (codes "truncated") (bool true) end))

-- `len(encoded) <= limit and encoded`, where a failed dump leaves no bytes.
unfoldable pub within : ℕ → Option Bytes → Option Bytes
within limit none = none
within limit (some []) = none
within limit (some (b ∷ bs)) = if leb (length (b ∷ bs)) limit then some (b ∷ bs) else none

send_fallback : ℕ → Option Bytes → Encoded
send_fallback limit none = runtime_error
send_fallback limit (some bs) = if ltb limit (length bs) then runtime_error else sent bs true

send_truncated : ℕ → Option Bytes → Encoded
unfolding send_fallback dump_json fallback
send_truncated limit (some bs) = sent bs true
send_truncated limit none = send_fallback limit (dump_json (obj fallback))

send_original : ℕ → Fields → Option Bytes → Encoded
unfolding send_truncated within truncate_payload dump_json
send_original limit payload (some bs) = sent bs false
send_original limit payload none =
    send_truncated limit (within limit (dump_json (obj (truncate_payload limit payload))))

unfoldable pub encode_json : Fields → ℕ → Encoded
unfolding send_original within dump_json
encode_json payload limit = send_original limit payload (within limit (dump_json (obj payload)))
