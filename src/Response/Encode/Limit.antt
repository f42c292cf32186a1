-- ===== src/Response/Encode/Limit.antt =====
-- The size and the flag of what `_encode_json` returns (bridge/server.py).
use stavrobot_imcp_plugin.Prelude.{
  ℕ, ◌≤◌, ◌≡◌, refl, ◌∙◌, ◌⊎◌, Text, codes, text_eq, text_eq_iff, Bool, true, false, Option, none,
  some, [], ◌∷◌, arith, leb, length, inl, inr, Bool-cases,
}
use stavrobot_imcp_plugin.Json.{Value, bool, obj, Fields, end, field, get, put}
use stavrobot_imcp_plugin.Json.Dump.{Bytes, dump_json, escape_char}
use stavrobot_imcp_plugin.Response.Encode.{
  sent, encode_json, send_original, send_truncated, send_fallback, within, truncate_payload,
  prune_nested, nested_key, fallback,
}

abbrev pub fallback_bytes : Bytes
fallback_bytes =
    codes
      "{\"ok\":false,\"error\":{\"code\":\"response_too_large\",\"message\":\"response exceeded the configured size limit\"},\"truncated\":true}"

dump-fallback : dump_json (obj fallback) ≡ some fallback_bytes
unfolding dump_json fallback escape_char
dump-fallback = refl

pub within-cases :
    (limit : ℕ) (o : Option Bytes)
    → (within limit o ≡ none)
      ⊎ ((bs : Bytes) × (within limit o ≡ some bs) × (o ≡ some bs) × (length bs ≤ limit))
unfolding within
within-cases limit none = inl refl
within-cases limit (some []) = inl refl
within-cases limit (some (b ∷ bs)) = elim (Bool-cases (leb (length (b ∷ bs)) limit)) [
  | inl e ↦ inr (b ∷ bs, rw e, refl, ground arith)
  | inr e ↦ inl (rw e)
]

pub get-put_self : (k : Text) (v : Value) (fs : Fields) → get k (put k v fs) ≡ some v
unfolding get put
get-put_self k v end = ground (arith, text_eq_iff k k)
get-put_self k v (field j w fs) = ground (arith, text_eq_iff k k, get-put_self k v fs)

pub get-put_ne :
    (k j : Text) (v : Value) (fs : Fields) → text_eq k j ≡ false → get j (put k v fs) ≡ get j fs
unfolding get put
get-put_ne k j v end h = ground arith
get-put_ne k j v (field i w fs) h =
    ground (arith, text_eq_iff i k, text_eq_iff i j, text_eq_iff k j, get-put_ne k j v fs)

-- What is sent, by the three ways out.
abbrev pub Reply : Fields → Bytes → Bool → Type 0
Reply payload bs false = dump_json (obj payload) ≡ some bs
Reply payload bs true =
    (fs : Fields) × (dump_json (obj fs) ≡ some bs) × (get (codes "truncated") fs ≡ some (bool true))

pub nested_key-cases :
    (fs : Fields)
    → (nested_key fs ≡ none)
      ⊎ ((nested_key fs ≡ some (codes "result")) ⊎ (nested_key fs ≡ some (codes "error")))
unfolding nested_key
nested_key-cases fs = ground arith

prune_nested-flag :
    (limit : ℕ) (fs : Fields) (key : Text)
    → text_eq key (codes "truncated") ≡ false
    → get (codes "truncated") fs ≡ some (bool true)
    → get (codes "truncated") (prune_nested limit fs key) ≡ some (bool true)
unfolding prune_nested
prune_nested-flag limit fs key ne h = get-put_ne key (codes "truncated") _ fs ne ∙ h

truncate-none :
    (limit : ℕ) (payload : Fields)
    → nested_key (put (codes "truncated") (bool true) payload) ≡ none
    → truncate_payload limit payload ≡ put (codes "truncated") (bool true) payload
unfolding truncate_payload
truncate-none limit payload e = ground arith

pub truncate-some :
    (limit : ℕ) (payload : Fields) (key : Text)
    → nested_key (put (codes "truncated") (bool true) payload) ≡ some key
    → truncate_payload limit payload
      ≡ prune_nested limit (put (codes "truncated") (bool true) payload) key
unfolding truncate_payload
truncate-some limit payload key e = ground arith

truncate-flag :
    (limit : ℕ) (payload : Fields)
    → get (codes "truncated") (truncate_payload limit payload) ≡ some (bool true)
unfolding text_eq
truncate-flag limit payload =
    let truncated : Fields = put (codes "truncated") (bool true) payload in
    let flag : get (codes "truncated") truncated ≡ some (bool true) =
      get-put_self (codes "truncated") (bool true) payload in
    elim (nested_key-cases truncated) [
      | inl e ↦ rw (truncate-none limit payload e) flag
      | inr (inl e) ↦
          rw (truncate-some limit payload _ e)
            (prune_nested-flag limit truncated (codes "result") refl flag)
      | inr (inr e) ↦
          rw (truncate-some limit payload _ e)
            (prune_nested-flag limit truncated (codes "error") refl flag)
    ]

-- Whatever the payload, surrogates included, and whatever the limit that leaves room for the
-- fallback envelope: `_encode_json` returns bytes, never its RuntimeError, at most `limit` of them,
-- and they are the JSON of the payload itself if the flag is false, and otherwise the JSON of a
-- mapping whose `truncated` is true.
pub encode_json-within :
    (payload : Fields) (limit : ℕ)
    → length fallback_bytes ≤ limit
    → (bs : Bytes) × (flag : Bool) × (encode_json payload limit ≡ sent bs flag)
      × (length bs ≤ limit)
      × Reply payload bs flag
unfolding encode_json
encode_json-within payload limit room = elim (within-cases limit (dump_json (obj payload))) [
  | inr (bs, e, d, le) ↦ (bs, false, rw (e, send_original), le, d)
  | inl e ↦ elim (within-cases limit (dump_json (obj (truncate_payload limit payload)))) [
    | inr (bs, e', d, le) ↦ (
      bs,
      true,
      rw (e, send_original, e', send_truncated),
      le,
      (truncate_payload limit payload, d, truncate-flag limit payload),
    )
    | inl e' ↦ (
      fallback_bytes,
      true,
      rw (e, send_original, e', send_truncated, dump-fallback, send_fallback) (ground arith),
      room,
      (fallback, dump-fallback, refl),
    )
  ]
]
