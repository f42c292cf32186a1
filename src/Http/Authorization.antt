-- ===== src/Http/Authorization.antt =====
-- What `_authorized` accepts (bridge/server.py).
use mathlib.Core.Path.{subst}
use mathlib.Core.Option.{some-injective, none-ne-some}
use stavrobot_imcp_plugin.Prelude.{
  Text, codes, text_eq_iff, Bool, true, false, Option, none, some, [], ◌∷◌, ◌++◌, map, ◌==◌, ==_iff,
  if◌then◌else◌, ◌≡◌, ◌≢◌, inl, inr, refl, sym, ap, arith, Bool-cases, Option-cases,
}
use stavrobot_imcp_plugin.Json.Dump.{Bytes, utf8}
use stavrobot_imcp_plugin.Http.{done, fold_letter, partition, same_secret, is_bearer, authorized}

-- The header is the scheme `bearer`, in letters of any case, a space, and a text with the bytes of
-- the token.
pub HasToken : Text → Text → Type 0
HasToken supplied token =
    (scheme : Text) × (value : Text) × (bytes : Bytes) × (supplied ≡ scheme ++ b' ' ∷ value)
    × (map fold_letter scheme ≡ codes "bearer")
    × (value ≢ [])
    × (utf8 value ≡ some bytes)
    × (utf8 token ≡ some bytes)

pub SendsToken : Option Text → Text → Type 0
SendsToken header token = (supplied : Text) × (header ≡ some supplied) × HasToken supplied token

Splits : Text → Text × Text → Type 0
Splits s p = s ≡ p.0 ++ b' ' ∷ p.1

partition_lem :
    (s scheme value : Text) → partition s ≡ some (scheme, value) → s ≡ scheme ++ b' ' ∷ value
unfolding partition Splits
partition_lem [] scheme value h = ground arith
partition_lem (c ∷ s) scheme value h = elim (Bool-cases (c == b' ')) [
  | inl e ↦
      subst (Splits (c ∷ s)) (some-injective ([], s) (scheme, value) (rw e at h))
        (ap (λ k. k ∷ s) ((==_iff c b' ').0 e))
  | inr e ↦ elim (Option-cases (partition s)) [
    | inl k ↦ absurd (none-ne-some (scheme, value) (rw (e, k) at h))
    | inr ((scheme', value'), k) ↦
        subst (Splits (c ∷ s))
          (some-injective (c ∷ scheme', value') (scheme, value) (rw (e, k) at h))
          (ap (λ t. c ∷ t) (partition_lem s scheme' value' k))
  ]
]

is_bearer_lem :
    (scheme value : Text)
    → is_bearer scheme value ≡ true
    → (map fold_letter scheme ≡ codes "bearer") × (value ≢ [])
unfolding is_bearer
is_bearer_lem scheme [] h = ground arith
is_bearer_lem scheme (c ∷ s) h =
    ((text_eq_iff (map fold_letter scheme) (codes "bearer")).0 h, λ e. ground arith)

false-ne-true : false ≢ true
false-ne-true h = ground arith

done_true : (b : Bool) → done b ≡ done true → b ≡ true
done_true true h = refl
done_true false h = ground arith

same_secret_lem :
    (a b : Option Bytes)
    → same_secret a b ≡ done true
    → (bytes : Bytes) × (a ≡ some bytes) × (b ≡ some bytes)
unfolding same_secret
same_secret_lem none b h = ground arith
same_secret_lem (some a) none h = ground arith
same_secret_lem (some a) (some b) h = (a, refl, ap some (sym ((text_eq_iff a b).0 (done_true _ h))))

accepted :
    (scheme value token : Text)
    → (if is_bearer scheme value then same_secret (utf8 value) (utf8 token) else done false)
      ≡ done true
    → HasToken (scheme ++ b' ' ∷ value) token
unfolding HasToken
accepted scheme value token h = elim (Bool-cases (is_bearer scheme value)) [
  | inr e ↦ absurd (false-ne-true (done_true false (rw e at h)))
  | inl e ↦
      let (fold, ne) = is_bearer_lem scheme value e in
      let (bytes, va, vb) = same_secret_lem (utf8 value) (utf8 token) (rw e at h) in
      (scheme, value, bytes, refl, fold, ne, va, vb)
]

-- `_authorized` accepts a request only if its header is the scheme `bearer` in letters of any case,
-- a space, and a text with the same UTF-8 bytes as the configured token.
pub authorized-SendsToken :
    (header : Option Text) (token : Text)
    → authorized header token ≡ done true
    → SendsToken header token
unfolding authorized SendsToken
authorized-SendsToken none token h = absurd (false-ne-true (done_true false h))
authorized-SendsToken (some supplied) token h = elim (Option-cases (partition supplied)) [
  | inl e ↦ absurd (false-ne-true (done_true false (rw (authorized, e) at h)))
  | inr ((scheme, value), e) ↦ (
    supplied,
    refl,
    subst (λ s. HasToken s token) (sym (partition_lem supplied scheme value e))
        (accepted scheme value token (rw (authorized, e) at h)),
  )
]
