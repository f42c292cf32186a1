-- ===== src/Config/Paths.antt =====
-- `_normalize_path` and `load_token` (bridge/server.py): what an accepted setting looks like.
use mathlib.Core.Path.{subst}
use mathlib.Core.Option.{some-injective, none-ne-some}
use stavrobot_imcp_plugin.Prelude.{
  ℕ, ◌≤◌, ◌≡◌, ◌≢◌, refl, Text, has_code, Bool, true, false, some, [], ◌∷◌, ◌++◌, All, arith,
  length, ltb, ◌==◌, Bool-cases, inl, inr, ◌⊎◌,
}
use stavrobot_imcp_plugin.Config.{
  rstrip, rooted, or_root, has_url_separator, normalize_rooted, normalize_path, lstrip_space,
  rstrip_space, any_space, load_token,
}

-- A path that `_normalize_path` gives back: absolute, without a query, a fragment or a null byte,
-- of at most 256 characters, and with no slash at its end unless it is the root.
pub record IsNormal (path : Text) : Type 0 where
  pub absolute : (s : Text) × (path ≡ b'/' ∷ s)
  pub plain : has_url_separator path ≡ false
  pub short : length path ≤ 256
  pub stripped : (path ≡ b'/' ∷ []) ⊎ (rstrip b'/' path ≡ path)

has_code-rstrip : (c d : ℕ) (s : Text) → has_code d s ≡ false → has_code d (rstrip c s) ≡ false
unfolding rstrip has_code
has_code-rstrip c d [] h = refl
has_code-rstrip c d (e ∷ s) h = ground (arith, has_code-rstrip c d s)

length-rstrip : (c : ℕ) (s : Text) → length (rstrip c s) ≤ length s
unfolding rstrip
length-rstrip c [] = omega arith
length-rstrip c (e ∷ s) = ground (arith, length-rstrip c s)

rstrip_idem : (c : ℕ) (s : Text) → rstrip c (rstrip c s) ≡ rstrip c s
unfolding rstrip
rstrip_idem c [] = refl
rstrip_idem c (e ∷ s) = ground (arith, rstrip_idem c s)

rstrip-head :
    (c d : ℕ) (s : Text) → (rstrip c (d ∷ s) ≡ []) ⊎ ((t : Text) × (rstrip c (d ∷ s) ≡ d ∷ t))
unfolding rstrip
rstrip-head c d s = ground arith

or_root-cases : (s : Text) → (s ≡ []) ⊎ (or_root s ≡ s)
unfolding or_root
or_root-cases [] = inl refl
or_root-cases (c ∷ s) = inr refl

rooted-head : (s : Text) → (t : Text) × (rooted s ≡ b'/' ∷ t)
unfolding rooted
rooted-head [] = ([], refl)
rooted-head (c ∷ s) = elim (Bool-cases (c == b'/')) [
  | inl e ↦ (s, rw e (ground arith))
  | inr e ↦ (c ∷ s, rw e)
]

separator-rstrip :
    (s : Text) → has_url_separator s ≡ false → has_url_separator (rstrip b'/' s) ≡ false
unfolding has_url_separator
separator-rstrip s h =
    ground
      (arith, has_code-rstrip b'/' b'?' s, has_code-rstrip b'/' b'#' s, has_code-rstrip b'/' 0 s)

stripped-IsNormal :
    (t : Text)
    → has_url_separator (b'/' ∷ t) ≡ false
    → length (b'/' ∷ t) ≤ 256
    → IsNormal (or_root (rstrip b'/' (b'/' ∷ t)))
unfolding or_root
stripped-IsNormal t plain short = elim (rstrip-head b'/' b'/' t) [
  | inl e ↦ rw e (record {
    absolute = ([], refl);
    plain = unfold has_url_separator has_code in refl;
    short = omega arith;
    stripped = inl refl;
  })
  | inr (u, e) ↦ rw e (record {
    absolute = (u, refl);
    plain = rw e at (separator-rstrip (b'/' ∷ t) plain);
    short =
        (let l : length (b'/' ∷ u) ≤ length (b'/' ∷ t) = rw e at (length-rstrip b'/' (b'/' ∷ t)) in
          omega arith);
    stripped = inr (rw e at (rstrip_idem b'/' (b'/' ∷ t)));
  })
]

normalize_rooted-IsNormal :
    (t path : Text) → normalize_rooted (b'/' ∷ t) ≡ some path → IsNormal path
unfolding normalize_rooted
normalize_rooted-IsNormal t path h = elim (Bool-cases (has_url_separator (b'/' ∷ t))) [
  | inl e ↦ absurd (none-ne-some path (rw e at h))
  | inr e ↦ elim (Bool-cases (ltb 256 (length (b'/' ∷ t)))) [
    | inl e' ↦ absurd (none-ne-some path (rw (e, e') at h))
    | inr e' ↦
        subst IsNormal (some-injective _ path (rw (e, e') at h))
          (stripped-IsNormal t e (ground arith))
  ]
]

-- Whatever path `_normalize_path` accepts: what it returns is absolute, has no query, fragment or
-- null byte and at most 256 characters, and ends in no slash unless it is the root.
pub normalize_path-IsNormal : (value path : Text) → normalize_path value ≡ some path → IsNormal path
unfolding normalize_path
normalize_path-IsNormal [] path h = absurd (none-ne-some path h)
normalize_path-IsNormal (c ∷ s) path h =
    let (t, e) = rooted-head (c ∷ s) in
    normalize_rooted-IsNormal t path (subst (λ u. normalize_rooted u ≡ some path) e h)

module _ (is_space : ℕ → Bool) where
  rstrip_space-token : (s : Text) → any_space is_space s ≡ false → rstrip_space is_space s ≡ s
  unfolding rstrip_space any_space
  rstrip_space-token [] h = refl
  rstrip_space-token (c ∷ []) h = ground arith
  rstrip_space-token (c ∷ d ∷ s) h = ground (arith, rstrip_space-token (d ∷ s))

  -- Only white space around the token is stripped.
  rstrip_space-append :
      (s pad : Text)
      → any_space is_space s ≡ false
      → All (λ c. is_space c ≡ true) pad
      → rstrip_space is_space (s ++ pad) ≡ s
  unfolding rstrip_space any_space
  rstrip_space-append [] [] h k = refl
  rstrip_space-append [] (c ∷ pad) h k = ground (arith, rstrip_space-append [] pad refl k.1)
  rstrip_space-append (c ∷ []) pad h k = ground (arith, rstrip_space-append [] pad refl k)
  rstrip_space-append (c ∷ d ∷ s) pad h k = ground (arith, rstrip_space-append (d ∷ s) pad)

  lstrip_space-append :
      (pad s : Text)
      → All (λ c. is_space c ≡ true) pad
      → lstrip_space is_space (pad ++ s) ≡ lstrip_space is_space s
  unfolding lstrip_space
  lstrip_space-append [] s k = refl
  lstrip_space-append (c ∷ pad) s k = rw k.0 (lstrip_space-append pad s k.1)

  -- A token file that holds a non-empty token without white space, with any white space around
  -- it, is read as that token.
  pub load_token-padded :
      (before after token : Text)
      → All (λ c. is_space c ≡ true) before
      → All (λ c. is_space c ≡ true) after
      → token ≢ []
      → any_space is_space token ≡ false
      → load_token is_space (some (before ++ (token ++ after))) ≡ some token
  unfolding load_token
  load_token-padded before after [] hb ha ne clean = absurd (ne refl)
  load_token-padded before after (c ∷ s) hb ha ne clean =
      rw (lstrip_space-append before ((c ∷ s) ++ after) hb)
        (ground (arith, rstrip_space-append (c ∷ s) after clean ha))
