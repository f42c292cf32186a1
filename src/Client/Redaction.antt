-- ===== src/Client/Redaction.antt =====
-- What `_redact` and `str.replace` take out of a decoded response (_bridge.py).
use mathlib.Core.Path.{subst}
use stavrobot_imcp_plugin.Prelude.{
  ℕ, zero, suc, ◌-◌, Text, text_eq, has_code, true, false, [], ◌∷◌, ◌++◌, length, ◌≡◌, ◌≢◌, refl,
  sym, ◌∙◌, arith, All, Bool-cases, inl, inr,
}
use stavrobot_imcp_plugin.Json.{
  Value, null, bool, int, float, not_finite, str, arr, obj, model, other, Items, nil, cons, Fields,
  end, field, put,
}
use stavrobot_imcp_plugin.Client.{
  starts_with, contains, replace, redacted, replacement_for, redact_text, redact, redact_items,
  redact_fields,
}

-- No character of the token stands in the replacement.
abbrev pub IsApart : Text → Type 0
IsApart secret = All (λ c. has_code c redacted ≡ false) secret

module _ (c : ℕ) (p : Text) where
  contains-append :
      (r t : Text) → has_code c r ≡ false → contains (c ∷ p) (r ++ t) ≡ contains (c ∷ p) t
  unfolding contains starts_with has_code
  contains-append [] t h = refl
  contains-append (d ∷ r) t h = ground (arith, contains-append r t)

  contains-absent : (s : Text) → has_code c s ≡ false → contains (c ∷ p) s ≡ false
  unfolding contains starts_with has_code
  contains-absent [] h = refl
  contains-absent (d ∷ s) h = ground (arith, contains-absent s)

replace-nil : (secret : Text) → replace secret redacted 0 [] ≡ []
unfolding replace
replace-nil secret = refl

replace-skip :
    (secret : Text) (skip d : ℕ) (s : Text)
    → replace secret redacted (suc skip) (d ∷ s) ≡ replace secret redacted skip s
unfolding replace
replace-skip secret skip d s = refl

contains-nil :
    (c : ℕ) (p : Text) (skip : ℕ) → contains (c ∷ p) (replace (c ∷ p) redacted skip []) ≡ false
unfolding replace contains starts_with
contains-nil c p skip = refl

starts_with-nil : (s : Text) → starts_with [] s ≡ true
unfolding starts_with
starts_with-nil s = refl

starts_with-step :
    (c d : ℕ) (p s t : Text)
    → (starts_with p t ≡ true → starts_with p s ≡ true)
    → starts_with (c ∷ p) (d ∷ t) ≡ true
    → starts_with (c ∷ p) (d ∷ s) ≡ true
unfolding starts_with
starts_with-step c d p s t f k = ground (arith, f)

starts_with-kept :
    (c d : ℕ) (p s t : Text)
    → starts_with (c ∷ p) (d ∷ s) ≡ false
    → (starts_with p t ≡ true → starts_with p s ≡ true)
    → starts_with (c ∷ p) (d ∷ t) ≡ false
unfolding starts_with
starts_with-kept c d p s t e f = elim (Bool-cases (starts_with p t)) [
  | inl k ↦ ground (arith, f k)
  | inr k ↦ ground arith
]

contains-step :
    (c d : ℕ) (p t : Text)
    → starts_with (c ∷ p) (d ∷ t) ≡ false
    → contains (c ∷ p) t ≡ false
    → contains (c ∷ p) (d ∷ t) ≡ false
unfolding contains
contains-step c d p t h k = rw (h, k) refl

true-ne-false : true ≢ false
true-ne-false h = ground arith

replace-hit :
    (secret replacement : Text) (d : ℕ) (s : Text)
    → starts_with secret (d ∷ s) ≡ true
    → replace secret replacement 0 (d ∷ s)
      ≡ replacement ++ replace secret replacement (length secret - 1) s
unfolding replace
replace-hit secret replacement d s e = rw (replace, e) refl

replace-miss :
    (secret replacement : Text) (d : ℕ) (s : Text)
    → starts_with secret (d ∷ s) ≡ false
    → replace secret replacement 0 (d ∷ s) ≡ d ∷ replace secret replacement 0 s
unfolding replace
replace-miss secret replacement d s e = rw (replace, e) refl

starts_with-redacted :
    (c : ℕ) (p t : Text) → has_code c redacted ≡ false → starts_with (c ∷ p) (redacted ++ t) ≡ false
unfolding starts_with has_code
starts_with-redacted c p t h = ground arith

-- An occurrence cannot begin in what was kept and go on in a replacement.
starts_with-replace :
    (secret p s : Text)
    → IsApart p
    → starts_with p (replace secret redacted 0 s) ≡ true
    → starts_with p s ≡ true
starts_with-replace secret [] s h k = starts_with-nil s
starts_with-replace secret (c ∷ p) [] h k =
    subst (λ t. starts_with (c ∷ p) t ≡ true) (replace-nil secret) k
starts_with-replace secret (c ∷ p) (d ∷ s) h k = elim (Bool-cases (starts_with secret (d ∷ s))) [
  | inl e ↦ absurd (
      true-ne-false (
        (sym (rw (replace-hit secret redacted d s e) at k))
        ∙ starts_with-redacted c p (replace secret redacted (length secret - 1) s) h.0))
  | inr e ↦
      starts_with-step c d p s (replace secret redacted 0 s) (starts_with-replace secret p s h.1)
        (rw (replace-miss secret redacted d s e) at k)
]

contains-replace :
    (c : ℕ) (p : Text) (skip : ℕ) (s : Text)
    → IsApart (c ∷ p)
    → contains (c ∷ p) (replace (c ∷ p) redacted skip s) ≡ false
contains-replace c p skip [] h = contains-nil c p skip
contains-replace c p (suc skip) (d ∷ s) h =
    rw (replace-skip (c ∷ p) skip d s) (contains-replace c p skip s h)
contains-replace c p zero (d ∷ s) h = elim (Bool-cases (starts_with (c ∷ p) (d ∷ s))) [
  | inl e ↦
      rw
        (
          replace-hit (c ∷ p) redacted d s e,
          contains-append c p redacted (replace (c ∷ p) redacted (length (c ∷ p) - 1) s) h.0,
        )
        (contains-replace c p (length (c ∷ p) - 1) s h)
  | inr e ↦ rw (replace-miss (c ∷ p) redacted d s e) (
      contains-step c d p (replace (c ∷ p) redacted 0 s)
        (starts_with-kept c d p s (replace (c ∷ p) redacted 0 s) e
          (starts_with-replace (c ∷ p) p s h.1))
        (contains-replace c p zero s h))
]

replacement_for-apart : (c : ℕ) (p : Text) → IsApart (c ∷ p) → replacement_for (c ∷ p) ≡ redacted
unfolding replacement_for
replacement_for-apart c p h = rw (contains-absent c p redacted h.0) refl

pub redact_text-contains :
    (secret s : Text)
    → secret ≢ []
    → IsApart secret
    → contains secret (redact_text secret s) ≡ false
unfolding redact_text
redact_text-contains [] s ne h = absurd (ne refl)
redact_text-contains (c ∷ p) s ne h = rw (replacement_for-apart c p h) (contains-replace c p 0 s h)

-- The token is in no string and no key of a list or of a mapping.
mutual
  pub IsHidden : Text → Value → Type 0
  IsHidden secret (str s) = contains secret s ≡ false
  IsHidden secret (arr xs) = IsHiddenItems secret xs
  IsHidden secret (obj fs) = IsHiddenFields secret fs
  IsHidden secret _ = Unit

  pub IsHiddenItems : Text → Items → Type 0
  IsHiddenItems secret nil = Unit
  IsHiddenItems secret (cons x xs) = IsHidden secret x × IsHiddenItems secret xs

  pub IsHiddenFields : Text → Fields → Type 0
  IsHiddenFields secret end = Unit
  IsHiddenFields secret (field k v fs) =
      (contains secret k ≡ false) × IsHidden secret v × IsHiddenFields secret fs

put-IsHidden :
    (secret k : Text) (v : Value) (fs : Fields)
    → contains secret k ≡ false
    → IsHidden secret v
    → IsHiddenFields secret fs
    → IsHiddenFields secret (put k v fs)
unfolding put IsHiddenFields
put-IsHidden secret k v end hk hv h = (hk, hv, tt)
put-IsHidden secret k v (field j w fs) hk hv h = elim (Bool-cases (text_eq j k)) [
  | inl e ↦ rw e (h.0, hv, h.2)
  | inr e ↦ rw e (h.0, h.1, put-IsHidden secret k v fs hk hv h.2)
]

module _ (secret : Text) (ne : secret ≢ []) (apart : IsApart secret) where
  mutual
    unfolding redact IsHidden

    hidden : (v : Value) → IsHidden secret (redact secret v)
    hidden null = tt
    hidden (bool b) = tt
    hidden (int i) = tt
    hidden (float t) = tt
    hidden not_finite = tt
    hidden (str s) = redact_text-contains secret s ne apart
    hidden (arr xs) = hidden_items xs
    hidden (obj fs) = hidden_fields fs end tt
    hidden (model v) = tt
    hidden other = tt

    hidden_items : (xs : Items) → IsHiddenItems secret (redact_items secret xs)
    hidden_items nil = tt
    hidden_items (cons x xs) = (hidden x, hidden_items xs)

    hidden_fields :
        (fs acc : Fields)
        → IsHiddenFields secret acc
        → IsHiddenFields secret (redact_fields secret fs acc)
    hidden_fields end acc h = h
    hidden_fields (field k v fs) acc h =
        hidden_fields fs (put (redact_text secret k) (redact secret v) acc) (
          put-IsHidden secret (redact_text secret k) (redact secret v) acc
            (redact_text-contains secret k ne apart) (hidden v) h)

-- For a token that is not empty and shares no character with the replacement, no string and no key
-- of a redacted value contains the token.
pub redact-IsHidden :
    (secret : Text) (v : Value) → secret ≢ [] → IsApart secret → IsHidden secret (redact secret v)
redact-IsHidden secret v ne apart = hidden secret ne apart v
