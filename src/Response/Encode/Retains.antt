-- ===== src/Response/Encode/Retains.antt =====
-- What `_encode_json` keeps of an oversized payload (bridge/server.py).
use mathlib.Core.Path.{subst}
use mathlib.Core.Option.{some-injective, none-ne-some}
use stavrobot_imcp_plugin.Prelude.{
  ℕ, ◌+◌, ◌-◌, ◌≤◌, ◌<◌, ◌≡◌, refl, ap, ◌∙◌, Text, codes, text_eq, true, false, Option, none, some,
  [], ◌∷◌, ◌++◌, arith, length, length-append, Option-cases, inl, inr, sym, ◌⊎◌, Bool-cases,
}
use stavrobot_imcp_plugin.Json.{
  Value, null, bool, int, float, not_finite, str, arr, model, other, obj, Fields, end, field, get,
  put,
}
use stavrobot_imcp_plugin.Json.Dump.{Bytes, dump_json, quote, is_surrogate}
use stavrobot_imcp_plugin.Json.Dump.Write.{
  IsScalar, is_scalar, is_scalar-IsScalar, IsClean, IsCleanFields, write, write_fields, utf8_all,
  utf8_all-append, encode, dump_json-clean,
}
use stavrobot_imcp_plugin.Response.Bounded.{bounded_json_value}
use stavrobot_imcp_plugin.Response.Bounded.Fits.{bounded_json_value-Fits, encode-obj, utf8_pair}
use stavrobot_imcp_plugin.Response.Bounded.Parts.{IsPart}
use stavrobot_imcp_plugin.Response.Bounded.Kept.{bounded_json_value-IsPart}
use stavrobot_imcp_plugin.Response.Bounded.Filling.{encode_pair}
use stavrobot_imcp_plugin.Response.Bounded.Strings.{Fits}
use stavrobot_imcp_plugin.Response.Encode.{
  sent, encode_json, send_original, send_truncated, within, truncate_payload, prune_nested,
  nested_key, overhead, compacted_or_empty,
}
use stavrobot_imcp_plugin.Response.Encode.Limit.{get-put_ne, truncate-some}

-- The bytes between the braces, the first pair behind `separator` bytes.
fields_size : ℕ → Fields → ℕ
fields_size separator end = 0
fields_size separator (field k v fs) =
    separator + (length (encode (str k)) + 1 + length (encode v)) + fields_size 1 fs

pair_size : Text → Value → ℕ
pair_size k v = length (encode (str k)) + 1 + length (encode v)

length-pair :
    (k : Text) (v : Value) → length (utf8_all (quote false k ++ b':' ∷ write v)) ≡ pair_size k v
unfolding encode_pair pair_size
length-pair k v =
    rw (utf8_pair k v) (omega (arith, length-append (encode (str k)) (b':' ∷ encode v)))

length-write_fields : (fs : Fields) → length (utf8_all (write_fields fs)) ≡ fields_size 0 fs
unfolding write_fields utf8_all fields_size pair_size
length-write_fields end = refl
length-write_fields (field k v end) = omega (arith, length-pair k v)
length-write_fields (field k v (field j w fs)) = omega (
  arith,
  length-pair k v,
  ap length
      (utf8_all-append (quote false k ++ b':' ∷ write v) (b',' ∷ write_fields (field j w fs))),
  length-append (utf8_all (quote false k ++ b':' ∷ write v))
      (b',' ∷ utf8_all (write_fields (field j w fs))),
  length-write_fields (field j w fs),
)

length-encode-obj : (fs : Fields) → length (encode (obj fs)) ≡ fields_size 0 fs + 2
length-encode-obj fs = omega (
  arith,
  ap length (encode-obj fs),
  length-append (utf8_all (write_fields fs)) (b'}' ∷ []),
  length-write_fields fs,
)

length-encode-null : length (encode null) ≡ 4
unfolding encode
length-encode-null = refl

-- Replacing a value changes the length by the difference of the two values.
fields_size-put :
    (separator : ℕ) (k : Text) (v w : Value) (fs : Fields)
    → get k fs ≡ some w
    → fields_size separator (put k v fs) + length (encode null)
      ≡ fields_size separator (put k null fs) + length (encode v)
unfolding fields_size get put
fields_size-put separator k v w end h = cc
fields_size-put separator k v w (field j x fs) h = elim (Bool-cases (text_eq j k)) [
  | inl e ↦ rw e (omega arith)
  | inr e ↦ rw e (omega (arith, fields_size-put 1 k v w fs (rw e at h)))
]

put-IsClean :
    (k : Text) (v : Value) (fs : Fields)
    → IsScalar k
    → IsClean v
    → IsCleanFields fs
    → IsCleanFields (put k v fs)
unfolding put
put-IsClean k v end hk hv h = (hk, hv, tt)
put-IsClean k v (field j w fs) hk hv h = elim (Bool-cases (text_eq j k)) [
  | inl e ↦ rw e (h.0, hv, h.2)
  | inr e ↦ rw e (h.0, h.1, put-IsClean k v fs hk hv h.2)
]

get-IsClean :
    (k : Text) (v : Value) (fs : Fields) → IsCleanFields fs → get k fs ≡ some v → IsClean v
unfolding get
get-IsClean k v end h e = cc
get-IsClean k v (field j w fs) h e = elim (Bool-cases (text_eq j k)) [
  | inl t ↦ subst IsClean (some-injective w v (rw t at e)) h.1
  | inr t ↦ get-IsClean k v fs h.2 (rw t at e)
]

null-le-fields_size :
    (separator : ℕ) (k : Text) (w : Value) (fs : Fields)
    → get k fs ≡ some w
    → length (encode null) ≤ fields_size separator (put k null fs)
unfolding fields_size get put
null-le-fields_size separator k w end h = cc
null-le-fields_size separator k w (field j x fs) h = elim (Bool-cases (text_eq j k)) [
  | inl e ↦ rw e (omega arith)
  | inr e ↦ rw e (omega (arith, null-le-fields_size 1 k w fs (rw e at h)))
]

-- The bytes of the truncated envelope: what the envelope takes with a null, and the nested value.
overhead-size :
    (limit : ℕ) (fs : Fields) (key : Text) (v w : Value)
    → IsScalar key
    → IsCleanFields fs
    → get key fs ≡ some w
    → length (encode (obj (put key v fs))) ≡ overhead limit fs key + length (encode v)
unfolding overhead
overhead-size limit fs key v w hk h e =
    rw (dump_json-clean (obj (put key null fs)) (put-IsClean key null fs hk tt h), overhead)
      (omega (
        arith,
        length-encode-obj (put key v fs),
        length-encode-obj (put key null fs),
        fields_size-put 0 key v w fs e,
        null-le-fields_size 0 key w fs e,
        length-encode-null,
      ))

compacted-Fits :
    (budget : ℕ) (o : Option (Value × Bytes))
    → 2 ≤ budget
    → Fits budget o
    → IsClean (compacted_or_empty o) × (length (encode (compacted_or_empty o)) ≤ budget)
unfolding compacted_or_empty
compacted-Fits budget none room h = (tt, empty-le)
  where
    empty-le : length (encode (obj end)) ≤ budget
    empty-le = unfold encode in room
compacted-Fits budget (some (null, bs)) room h = (tt, unfold encode in room)
compacted-Fits budget (some (v, bs)) room h = (h.0, rw (← h.1) h.2)

nested-present :
    (fs : Fields) (key : Text)
    → nested_key fs ≡ some key
    → (w : Value) × (get key fs ≡ some w) × IsScalar key × (text_eq (codes "truncated") key ≡ false)
unfolding nested_key is_scalar is_surrogate text_eq
nested-present fs key h = elim (Option-cases (get (codes "result") fs)) [
  | inr (w, e) ↦
      subst Present (some-injective (codes "result") key (rw e at h))
        (w, e, is_scalar-IsScalar (codes "result") refl, refl)
  | inl e ↦ elim (Option-cases (get (codes "error") fs)) [
    | inr (w, e') ↦
        subst Present (some-injective (codes "error") key (rw (e, e') at h))
          (w, e', is_scalar-IsScalar (codes "error") refl, refl)
    | inl e' ↦ absurd (none-ne-some key (rw (e, e') at h))
  ]
]
  where
    Present : Text → Type 0
    Present k =
        (w : Value) × (get k fs ≡ some w) × IsScalar k × (text_eq (codes "truncated") k ≡ false)

-- A clean payload whose nested value is pruned to what is left fits in the limit.
pruned-fits :
    (limit : ℕ) (fs : Fields) (key : Text) (w : Value)
    → IsScalar key
    → IsCleanFields fs
    → get key fs ≡ some w
    → overhead limit fs key + 2 ≤ limit
    → IsCleanFields (prune_nested limit fs key)
      × (length (encode (obj (prune_nested limit fs key))) ≤ limit)
unfolding prune_nested
pruned-fits limit fs key w hk h e room =
    let child : IsClean (compacted_or_empty (bounded_json_value w (limit - overhead limit fs key)))
        × (length
              (encode (compacted_or_empty (bounded_json_value w (limit - overhead limit fs key))))
            ≤ limit - overhead limit fs key) =
      compacted-Fits (limit - overhead limit fs key)
        (bounded_json_value w (limit - overhead limit fs key)) (omega arith)
        (bounded_json_value-Fits w (limit - overhead limit fs key) (get-IsClean key w fs h e)) in
    rw (e, prune_nested)
      (
        put-IsClean key _ fs hk child.0 h,
        (rw (overhead-size limit fs key _ w hk h e) (omega arith)),
      )

-- What takes the place of the nested value: a part of it, or nothing of it.
compacted-IsPart :
    (w : Value) (budget : ℕ)
    → (compacted_or_empty (bounded_json_value w budget) ≡ obj end)
      ⊎ IsPart (compacted_or_empty (bounded_json_value w budget)) w
unfolding compacted_or_empty
compacted-IsPart w budget = go (bounded_json_value w budget) (bounded_json_value-IsPart w budget)
  where
    go :
        (o : Option (Value × Bytes))
        → ((v : Value) (bs : Bytes) → o ≡ some (v, bs) → IsPart v w)
        → (compacted_or_empty o ≡ obj end) ⊎ IsPart (compacted_or_empty o) w
    go none h = inl refl
    go (some (null, bs)) h = inl refl
    go (some (bool b, bs)) h = inr (h (bool b) bs refl)
    go (some (int i, bs)) h = inr (h (int i) bs refl)
    go (some (float r, bs)) h = inr (h (float r) bs refl)
    go (some (not_finite, bs)) h = inr (h not_finite bs refl)
    go (some (str t, bs)) h = inr (h (str t) bs refl)
    go (some (arr xs, bs)) h = inr (h (arr xs) bs refl)
    go (some (obj fs, bs)) h = inr (h (obj fs) bs refl)
    go (some (model m, bs)) h = inr (h (model m) bs refl)
    go (some (other, bs)) h = inr (h other bs refl)

prune_nested-put :
    (limit : ℕ) (fs : Fields) (key : Text) (w : Value)
    → get key fs ≡ some w
    → prune_nested limit fs key
      ≡ put key (compacted_or_empty (bounded_json_value w (limit - overhead limit fs key))) fs
unfolding prune_nested
prune_nested-put limit fs key w e = rw (prune_nested, e) refl

encode-obj-nonempty :
    (limit : ℕ) (fs : Fields)
    → IsCleanFields fs
    → length (encode (obj fs)) ≤ limit
    → within limit (dump_json (obj fs)) ≡ some (encode (obj fs))
unfolding within
encode-obj-nonempty limit fs h le = ground (arith, dump_json-clean (obj fs) h, encode-obj fs)

too_long :
    (limit : ℕ) (fs : Fields)
    → IsCleanFields fs
    → limit < length (encode (obj fs))
    → within limit (dump_json (obj fs)) ≡ none
unfolding within
too_long limit fs h le = ground (arith, dump_json-clean (obj fs) h, encode-obj fs)

sends_truncated :
    (limit : ℕ) (payload : Fields) (bs : Bytes)
    → within limit (dump_json (obj payload)) ≡ none
    → within limit (dump_json (obj (truncate_payload limit payload))) ≡ some bs
    → encode_json payload limit ≡ sent bs true
unfolding encode_json
sends_truncated limit payload bs e e' = rw (e, send_original, e', send_truncated)

-- An oversized clean payload with a `result`, or else an `error`, is never replaced by the fallback
-- while the envelope leaves two bytes for that value: what is sent is the payload with `truncated` set
-- to true and the value replaced by a part of it or by an empty mapping, nothing else changed, and it
-- is within the limit.
pub encode_json-prunes :
    (payload : Fields) (limit : ℕ) (key : Text)
    → IsCleanFields payload
    → nested_key (put (codes "truncated") (bool true) payload) ≡ some key
    → overhead limit (put (codes "truncated") (bool true) payload) key + 2 ≤ limit
    → limit < length (encode (obj payload))
    → (w : Value) × (get key payload ≡ some w)
      × (v : Value) × ((v ≡ obj end) ⊎ IsPart v w)
      × (encode_json payload limit
          ≡ sent (encode (obj (put key v (put (codes "truncated") (bool true) payload)))) true)
      × (length (encode (obj (put key v (put (codes "truncated") (bool true) payload)))) ≤ limit)
unfolding is_scalar is_surrogate
encode_json-prunes payload limit key h e room long =
    let fs : Fields = put (codes "truncated") (bool true) payload in
    let clean : IsCleanFields fs =
      put-IsClean (codes "truncated") (bool true) payload
        (is_scalar-IsScalar (codes "truncated") refl) tt h in
    let (w, ew, hk, ne) = nested-present fs key e in
    let v : Value = compacted_or_empty (bounded_json_value w (limit - overhead limit fs key)) in
    let same : truncate_payload limit payload ≡ put key v fs =
      truncate-some limit payload key e ∙ prune_nested-put limit fs key w ew in
    let fits : IsCleanFields (put key v fs) × (length (encode (obj (put key v fs))) ≤ limit) =
      subst (λ x. IsCleanFields x × (length (encode (obj x)) ≤ limit))
        (prune_nested-put limit fs key w ew) (pruned-fits limit fs key w hk clean ew room) in
    (
      w,
      sym (get-put_ne (codes "truncated") key (bool true) payload ne) ∙ ew,
      v,
      compacted-IsPart w (limit - overhead limit fs key),
      sends_truncated limit payload _ (too_long limit payload h long)
          (rw same (encode-obj-nonempty limit (put key v fs) fits.0 fits.1)),
      fits.1,
    )
