-- ===== src/Response/Bounded/Parts.antt =====
-- What `_bounded_json_value` keeps of a value (bridge/server.py).
use mathlib.Core.Path.{subst}
use mathlib.Core.Option.{some-injective, none-ne-some}
use stavrobot_imcp_plugin.Prelude.{
  ℕ, ◌+◌, ◌-◌, ◌≡◌, refl, ap, Text, Option, none, some, [], ◌∷◌, ◌++◌, ltb, leb, length, inl, inr,
  Bool-cases, Option-cases,
}
use stavrobot_imcp_plugin.Json.{Value, str, arr, obj, Items, nil, cons, Fields, end, field}
use stavrobot_imcp_plugin.Json.Dump.{Bytes, dump_json}
use stavrobot_imcp_plugin.Response.Bounded.{
  Child, fit_pair, fit_item, bounded_str, bounded_scalar, take_characters, fragment, dump_text,
  guarded,
}

-- A pair of the mapping.
pub data Has : Fields → Text → Value → Type 0 where
  first : {k : Text} {w : Value} {fs : Fields} → Has (field k w fs) k w
  later : {j k : Text} {x w : Value} {fs : Fields} → Has fs k w → Has (field j x fs) k w

-- The first value is what can be left of the second: all of it, the start of a string, parts of the
-- first items of a list, or parts of some of the pairs of a mapping, each under its own key.
mutual
  pub data IsPart : Value → Value → Type 0 where
    whole : {v : Value} → IsPart v v
    start : {s u : Text} (t : Text) → s ++ t ≡ u → IsPart (str s) (str u)
    of_list : {ys xs : Items} → ArePartItems ys xs → IsPart (arr ys) (arr xs)
    of_mapping : {gs fs : Fields} → ArePartFields gs fs → IsPart (obj gs) (obj fs)

  pub data ArePartItems : Items → Items → Type 0 where
    no_item : {xs : Items} → ArePartItems nil xs
    and_item :
        {y x : Value} {ys xs : Items}
        → IsPart y x
        → ArePartItems ys xs
        → ArePartItems (cons y ys) (cons x xs)

  pub data ArePartFields : Fields → Fields → Type 0 where
    no_pair : {fs : Fields} → ArePartFields end fs
    and_pair :
        {k : Text} {v w : Value} {gs fs : Fields}
        → Has fs k w
        → IsPart v w
        → ArePartFields gs fs
        → ArePartFields (field k v gs) fs

-- Whatever the budget, what the traversal makes of the child is a part of `w`.
unfoldable pub Makes : Value → Child → Type 0
Makes w child = (budget : ℕ) (v : Value) (bs : Bytes) → child budget ≡ some (v, bs) → IsPart v w

-- The child of a pair of `fs`.
unfoldable pub FromPair : Fields → Text × Child → Type 0
FromPair fs (k, child) = (w : Value) × Has fs k w × Makes w child

unfoldable pub KeptFrom : Fields → Text × Value × Bytes → Type 0
KeptFrom fs (k, v, pair) = (w : Value) × Has fs k w × IsPart v w

take_characters_start :
    (budget used : ℕ) (s : Text) → (t : Text) × (take_characters budget used s ++ t ≡ s)
unfolding take_characters
take_characters_start budget used [] = ([], refl)
take_characters_start budget used (c ∷ s) =
    let (t, e) = take_characters_start budget (used + length (fragment c)) s in
    elim (Bool-cases (ltb budget (used + length (fragment c)))) [
      | inl h ↦ rw h (c ∷ s, refl)
      | inr h ↦ rw h (t, ap (◌∷◌ c) e)
    ]

pub value_of :
    {v w : Value} {bs cs : Bytes}
    → ◌≡◌ {A = Option (Value × Bytes)} (some (v, bs)) (some (w, cs))
    → v ≡ w
value_of e = ap (λ p. p.0) (some-injective _ _ e)

pub bounded_str-Makes : (s : Text) → Makes (str s) (bounded_str s)
unfolding bounded_str Makes
bounded_str-Makes s budget v bs e = elim (Bool-cases (leb (length (dump_text s)) budget)) [
  | inl h ↦ subst (λ x. IsPart x (str s)) (value_of (rw (bounded_str, h) at e)) whole
  | inr h ↦ elim (Bool-cases (ltb budget 2)) [
    | inl k ↦ absurd (none-ne-some (v, bs) (rw (bounded_str, h, k) at e))
    | inr k ↦
        let (t, q) = take_characters_start budget 2 s in
        subst (λ x. IsPart x (str s)) (value_of (rw (bounded_str, h, k) at e)) (start t q)
  ]
]

pub bounded_scalar-Makes : (v : Value) → Makes v (bounded_scalar v)
unfolding bounded_scalar Makes
bounded_scalar-Makes w budget v bs e = elim (Option-cases (dump_json w)) [
  | inl h ↦ absurd (none-ne-some (v, bs) (rw (bounded_scalar, h) at e))
  | inr (encoded, h) ↦ elim (Bool-cases (leb (length encoded) budget)) [
    | inl k ↦ subst (λ x. IsPart x w) (value_of (rw (bounded_scalar, h, k) at e)) whole
    | inr k ↦ absurd (none-ne-some (v, bs) (rw (bounded_scalar, h, k) at e))
  ]
]

pub guarded-Makes : (w : Value) (child : Child) → Makes w child → Makes w (guarded child)
unfolding guarded Makes
guarded-Makes w child h budget v bs e = elim (Bool-cases (leb budget 0)) [
  | inl k ↦ absurd (none-ne-some (v, bs) (rw (guarded, k) at e))
  | inr k ↦ h budget v bs (rw (guarded, k) at e)
]

pub nothing-Makes : (w : Value) → Makes w (guarded (λ _. none))
nothing-Makes w =
    guarded-Makes w (λ _. none) (unfold Makes in λ budget v bs e. absurd (none-ne-some (v, bs) e))

pub fit_item-Makes :
    (w : Value) (child : Child) (budget used separator : ℕ)
    → Makes w child
    → (v : Value) (bs : Bytes) → fit_item budget used separator child ≡ some (v, bs)
    → IsPart v w
unfolding fit_item Makes
fit_item-Makes w child budget used separator h v bs e =
    elim (Bool-cases (leb (budget - used - separator - 1) 0)) [
      | inl k ↦ absurd (none-ne-some (v, bs) (rw (fit_item, k) at e))
      | inr k ↦ elim (Option-cases (child (budget - used - separator - 1))) [
        | inl l ↦ absurd (none-ne-some (v, bs) (rw (fit_item, k, l) at e))
        | inr ((x, cs), l) ↦ elim (Bool-cases (ltb budget (used + separator + length cs + 1))) [
          | inl m ↦ absurd (none-ne-some (v, bs) (rw (fit_item, k, l, m) at e))
          | inr m ↦ subst (λ x. IsPart x w) (value_of (rw (fit_item, k, l, m) at e)) (h _ x cs l)
        ]
      ]
    ]

pub fit_pair-Makes :
    (w : Value) (k : Text) (child : Child) (budget used separator : ℕ)
    → Makes w child
    → (v : Value) (bs : Bytes) → fit_pair budget used separator k child ≡ some (v, bs)
    → IsPart v w
unfolding fit_pair Makes
fit_pair-Makes w k child budget used separator h v bs e =
    elim (Bool-cases (leb (budget - used - separator - length (dump_text k) - 2) 0)) [
      | inl b ↦ absurd (none-ne-some (v, bs) (rw (fit_pair, b) at e))
      | inr b ↦ elim (Option-cases (child (budget - used - separator - length (dump_text k) - 2))) [
        | inl l ↦ absurd (none-ne-some (v, bs) (rw (fit_pair, b, l) at e))
        | inr ((x, cs), l) ↦
            elim (Bool-cases
              (ltb budget (used + separator + length (dump_text k ++ b':' ∷ cs) + 1))) [
                | inl m ↦ absurd (none-ne-some (v, bs) (rw (fit_pair, b, l, m) at e))
                | inr m ↦
                    subst (λ x. IsPart x w) (value_of (rw (fit_pair, b, l, m) at e)) (h _ x cs l)
              ]
      ]
    ]
