-- ===== src/Bridge/Responses/Names.antt =====
-- The tool names that `_validate_tool_name` accepts (bridge/server.py).
use stavrobot_imcp_plugin.Prelude.{
  ℕ, ◌≤◌, Text, has_code, false, some, [], ◌∷◌, length, ltb, ◌≡◌, ◌≢◌, arith, Bool-cases,
  Option-cases, inl, inr,
}
use stavrobot_imcp_plugin.Json.{str}
use stavrobot_imcp_plugin.Json.Dump.{Bytes, utf8}
use stavrobot_imcp_plugin.Response.Payload.{max_tool_name_bytes}
use stavrobot_imcp_plugin.Bridge.Responses.{valid, validate_text, validate_tool_name, utf8_longer}

-- A text that is not empty, has no null character, and at most 256 bytes in UTF-8.
pub IsToolName : Text → Type 0
IsToolName name =
    (bytes : Bytes) × (name ≢ [])
    × (has_code 0 name ≡ false)
    × (utf8 name ≡ some bytes)
    × (length bytes ≤ max_tool_name_bytes)

cons-ne-nil : {c : ℕ} {s : Text} → c ∷ s ≢ []
cons-ne-nil h = ground arith

not_over : (n k : ℕ) → ltb k n ≡ false → n ≤ k
not_over n k h = ground arith

validate_text_lem :
    (codec_message : Text → Text) (s name : Text)
    → validate_text codec_message s ≡ valid name
    → IsToolName s
unfolding validate_text utf8_longer IsToolName
validate_text_lem codec_message [] name h = ground arith
validate_text_lem codec_message (c ∷ s) name h = elim (Bool-cases (has_code 0 (c ∷ s))) [
  | inl e ↦ ground arith
  | inr e ↦ elim (Option-cases (utf8 (c ∷ s))) [
    | inl k ↦ ground arith
    | inr (bytes, k) ↦ elim (Bool-cases (ltb max_tool_name_bytes (length bytes))) [
      | inl l ↦ ground arith
      | inr l ↦ (bytes, cons-ne-nil, e, k, not_over (length bytes) max_tool_name_bytes l)
    ]
  ]
]

pub validate_tool_name_lem :
    (codec_message : Text → Text) (s name : Text)
    → validate_tool_name codec_message (some (str s)) ≡ valid name
    → IsToolName s
unfolding validate_tool_name
validate_tool_name_lem codec_message s name h = validate_text_lem codec_message s name h
