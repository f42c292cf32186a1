-- ===== src/Response/Bounded/Strings.antt =====
-- Strings and scalars within the budget of `_bounded_json_value` (bridge/server.py).
use mathlib.Core.List.{append-nil}
use stavrobot_imcp_plugin.Prelude.{
  ℕ, ◌+◌, ◌≤◌, ◌≡◌, refl, ap, Text, false, Option, none, some, [], ◌∷◌, ◌++◌, arith, ltb, length,
  length-append, inl, inr, Bool-cases,
}
use stavrobot_imcp_plugin.Json.{Value, str}
use stavrobot_imcp_plugin.Json.Dump.{Bytes, escape, quote, is_surrogate}
use stavrobot_imcp_plugin.Json.Dump.Write.{
  IsScalar, IsClean, write, utf8_all, utf8_all-append, encode, dump_json-clean,
}
use stavrobot_imcp_plugin.Response.Bounded.{
  Child, drop_last, strip_quotes, dump_text, fragment, take_characters, bounded_str, bounded_scalar,
}

-- A pruned value comes with its own encoding, in at most `budget` bytes.
abbrev pub Fits : ℕ → Option (Value × Bytes) → Type 0
Fits budget none = Unit
Fits budget (some (v, bs)) = IsClean v × (bs ≡ encode v) × (length bs ≤ budget)

abbrev pub FitsAlways : Child → Type 0
FitsAlways child = (budget : ℕ) → Fits budget (child budget)

abbrev pub FitsPair : Text × Child → Type 0
FitsPair (k, child) = IsScalar k × FitsAlways child

-- The bytes between the quotes of an encoded string.
pub inner : Text → Bytes
inner s = utf8_all (escape false s)

encode-str : (s : Text) → encode (str s) ≡ b'"' ∷ (inner s ++ b'"' ∷ [])
unfolding encode write quote inner utf8_all
encode-str s = ap (◌∷◌ b'"') (utf8_all-append (escape false s) (b'"' ∷ []))

pub dump_text-scalar : (s : Text) → IsScalar s → dump_text s ≡ encode (str s)
unfolding dump_text
dump_text-scalar s h = ground (arith, dump_json-clean (str s) h)

drop_last-append : (bs : Bytes) (b : ℕ) → drop_last (bs ++ b ∷ []) ≡ bs
unfolding drop_last
drop_last-append [] b = refl
drop_last-append (c ∷ []) b = refl
drop_last-append (c ∷ d ∷ bs) b = ap (◌∷◌ c) (drop_last-append (d ∷ bs) b)

inner-cons : (c : ℕ) (s : Text) → inner (c ∷ s) ≡ inner (c ∷ []) ++ inner s
unfolding inner escape utf8_all
inner-cons c s = simp (append-nil, utf8_all-append)

fragment-scalar : (c : ℕ) → is_surrogate c ≡ false → fragment c ≡ inner (c ∷ [])
unfolding fragment strip_quotes
fragment-scalar c h =
    rw (dump_text-scalar (c ∷ []) (h, tt), encode-str (c ∷ []))
      (drop_last-append (inner (c ∷ [])) b'"')

length-inner-cons :
    (c : ℕ) (s : Text)
    → is_surrogate c ≡ false
    → length (inner (c ∷ s)) ≡ length (fragment c) + length (inner s)
length-inner-cons c s h =
    rw (inner-cons c s, fragment-scalar c h) (length-append (inner (c ∷ [])) (inner s))

take_characters-IsScalar :
    (budget used : ℕ) (s : Text) → IsScalar s → IsScalar (take_characters budget used s)
unfolding take_characters
take_characters-IsScalar budget used [] h = tt
take_characters-IsScalar budget used (c ∷ s) h =
    ground (arith, take_characters-IsScalar budget (used + length (fragment c)) s h.1)

take_characters-fits :
    (budget used : ℕ) (s : Text)
    → IsScalar s
    → used ≤ budget
    → used + length (inner (take_characters budget used s)) ≤ budget
unfolding take_characters
take_characters-fits budget used [] h le = unfold inner escape utf8_all in omega arith
take_characters-fits budget used (c ∷ s) h le =
    elim (Bool-cases (ltb budget (used + length (fragment c)))) [
      | inl e ↦ rw e (unfold inner escape utf8_all in omega arith)
      | inr e ↦ rw e (
          rw (length-inner-cons c (take_characters budget (used + length (fragment c)) s) h.0) (
            let le2 : used + length (fragment c) ≤ budget = ground arith in
            omega (arith, take_characters-fits budget (used + length (fragment c)) s h.1 le2)))
    ]

length-encode-str : (s : Text) → length (encode (str s)) ≡ length (inner s) + 2
length-encode-str s = rw (encode-str s) (omega (arith, length-append (inner s) (b'"' ∷ [])))

pub bounded_str-Fits : (s : Text) → IsScalar s → FitsAlways (bounded_str s)
unfolding bounded_str
bounded_str-Fits s h budget = ground (
  arith,
  dump_text-scalar s h,
  dump_text-scalar (take_characters budget 2 s) (take_characters-IsScalar budget 2 s h),
  take_characters-IsScalar budget 2 s h,
  length-encode-str (take_characters budget 2 s),
  take_characters-fits budget 2 s h,
)

pub bounded_scalar-Fits : (v : Value) → IsClean v → FitsAlways (bounded_scalar v)
unfolding bounded_scalar
bounded_scalar-Fits v h budget = ground (arith, dump_json-clean v h, h)
