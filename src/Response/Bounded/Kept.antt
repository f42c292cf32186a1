-- ===== src/Response/Bounded/Kept.antt =====
-- The traversal of `_bounded_json_value` keeps a part of the value (bridge/server.py).
use mathlib.Core.Path.{subst}
use mathlib.Core.Option.{none-ne-some}
use stavrobot_imcp_plugin.Prelude.{
  ℕ, ◌+◌, ◌≡◌, Text, some, List, [], ◌∷◌, All, ltb, leb, length, inl, inr, Bool-cases, Option-cases,
}
use stavrobot_imcp_plugin.Json.{
  Value, null, bool, int, float, not_finite, str, arr, obj, model, other, Items, nil, cons, Fields,
  end, field,
}
use stavrobot_imcp_plugin.Json.Dump.{Bytes}
use stavrobot_imcp_plugin.Response.Bounded.{
  Child, position, priority, insert_item, ordered_mapping_items, fit_pair, fit_item, fill_pairs,
  fill_items, pair_fields, list_items, bounded_mapping, bounded_list, bounded_json_value,
  mapping_children, list_children,
}
use stavrobot_imcp_plugin.Response.Bounded.Parts.{
  first, later, IsPart, ArePartItems, ArePartFields, of_list, of_mapping, no_item, and_item,
  no_pair, and_pair, Makes, FromPair, KeptFrom, value_of, bounded_str-Makes, bounded_scalar-Makes,
  guarded-Makes, nothing-Makes, fit_item-Makes, fit_pair-Makes,
}

fill_pairs-KeptFrom :
    (fs : Fields) (budget used separator : ℕ) (items : List (Text × Child))
    → All (FromPair fs) items
    → All (KeptFrom fs) (fill_pairs budget used separator items)
unfolding fill_pairs KeptFrom FromPair
fill_pairs-KeptFrom fs budget used separator [] h = tt
fill_pairs-KeptFrom fs budget used separator ((k, child) ∷ items) h =
    elim (Option-cases (fit_pair budget used separator k child)) [
      | inl e ↦ rw (fill_pairs, e) (fill_pairs-KeptFrom fs budget used separator items h.1)
      | inr ((v, pair), e) ↦
          let (w, has, makes) = h.0 in
          rw (fill_pairs, e)
            (
              (w, has, fit_pair-Makes w k child budget used separator makes v pair e),
              fill_pairs-KeptFrom fs budget (used + separator + length pair) 1 items h.1,
            )
    ]

pair_fields-ArePartFields :
    (fs : Fields) (kept : List (Text × Value × Bytes))
    → All (KeptFrom fs) kept
    → ArePartFields (pair_fields kept) fs
unfolding pair_fields KeptFrom
pair_fields-ArePartFields fs [] h = no_pair
pair_fields-ArePartFields fs ((k, v, pair) ∷ kept) h =
    let (w, has, part) = h.0 in and_pair has part (pair_fields-ArePartFields fs kept h.1)

-- The children of a list are those of its items.
abbrev OfItems : Items → List Child → Type 0
OfItems nil [] = Unit
OfItems nil (c ∷ cs) = ⊥
OfItems (cons x xs) [] = ⊥
OfItems (cons x xs) (c ∷ cs) = Makes x c × OfItems xs cs

fill_items-ArePartItems :
    (xs : Items) (children : List Child) (budget used separator : ℕ)
    → OfItems xs children
    → ArePartItems (list_items (fill_items budget used separator children)) xs
unfolding fill_items list_items
fill_items-ArePartItems xs [] budget used separator h = no_item
fill_items-ArePartItems nil (c ∷ cs) budget used separator h = absurd h
fill_items-ArePartItems (cons x xs) (c ∷ cs) budget used separator h =
    elim (Option-cases (fit_item budget used separator c)) [
      | inl e ↦ rw (fill_items, e) no_item
      | inr ((v, encoded), e) ↦
          rw (fill_items, e)
            (and_item (fit_item-Makes x c budget used separator h.0 v encoded e)
              (fill_items-ArePartItems xs cs budget (used + separator + length encoded) 1 h.1))
    ]

insert_item-FromPair :
    (fs : Fields) (item : Text × Child) (items : List (Text × Child))
    → FromPair fs item
    → All (FromPair fs) items
    → All (FromPair fs) (insert_item item items)
unfolding insert_item
insert_item-FromPair fs (k, g) [] h hs = (h, tt)
insert_item-FromPair fs (k, g) ((j, c) ∷ items) h hs =
    elim (Bool-cases (leb (position k priority) (position j priority))) [
      | inl e ↦ rw e (h, hs)
      | inr e ↦ rw e (hs.0, insert_item-FromPair fs (k, g) items h hs.1)
    ]

ordered-FromPair :
    (fs : Fields) (items : List (Text × Child))
    → All (FromPair fs) items
    → All (FromPair fs) (ordered_mapping_items items)
unfolding ordered_mapping_items
ordered-FromPair fs [] h = tt
ordered-FromPair fs (item ∷ items) h =
    insert_item-FromPair fs item (ordered_mapping_items items) h.0 (ordered-FromPair fs items h.1)

bounded_mapping-Makes :
    (fs : Fields) (items : List (Text × Child))
    → All (FromPair fs) items
    → Makes (obj fs) (bounded_mapping items)
unfolding bounded_mapping Makes
bounded_mapping-Makes fs items h budget v bs e = elim (Bool-cases (ltb budget 2)) [
  | inl k ↦ absurd (none-ne-some (v, bs) (rw (bounded_mapping, k) at e))
  | inr k ↦
      subst (λ x. IsPart x (obj fs)) (value_of (rw (bounded_mapping, k) at e))
        (of_mapping (
          pair_fields-ArePartFields fs _
            (fill_pairs-KeptFrom fs budget 1 0 _ (ordered-FromPair fs items h))))
]

bounded_list-Makes :
    (xs : Items) (children : List Child)
    → OfItems xs children
    → Makes (arr xs) (bounded_list children)
unfolding bounded_list Makes
bounded_list-Makes xs children h budget v bs e = elim (Bool-cases (ltb budget 2)) [
  | inl k ↦ absurd (none-ne-some (v, bs) (rw (bounded_list, k) at e))
  | inr k ↦
      subst (λ x. IsPart x (arr xs)) (value_of (rw (bounded_list, k) at e))
        (of_list (fill_items-ArePartItems xs children budget 1 0 h))
]

later_pairs :
    (k : Text) (w : Value) (fs : Fields) (items : List (Text × Child))
    → All (FromPair fs) items
    → All (FromPair (field k w fs)) items
unfolding FromPair
later_pairs k w fs [] h = tt
later_pairs k w fs ((j, c) ∷ items) h =
    let (x, has, makes) = h.0 in ((x, later has, makes), later_pairs k w fs items h.1)

mutual
  unfolding bounded_json_value FromPair

  bounded-Makes : (w : Value) → Makes w (bounded_json_value w)
  bounded-Makes null = guarded-Makes _ _ (bounded_scalar-Makes null)
  bounded-Makes (bool b) = guarded-Makes _ _ (bounded_scalar-Makes (bool b))
  bounded-Makes (int i) = guarded-Makes _ _ (bounded_scalar-Makes (int i))
  bounded-Makes (float repr) = guarded-Makes _ _ (bounded_scalar-Makes (float repr))
  bounded-Makes not_finite = guarded-Makes _ _ (bounded_scalar-Makes not_finite)
  bounded-Makes (str s) = guarded-Makes _ _ (bounded_str-Makes s)
  bounded-Makes (arr xs) = guarded-Makes _ _ (bounded_list-Makes xs _ (list-OfItems xs))
  bounded-Makes (obj fs) = guarded-Makes _ _ (bounded_mapping-Makes fs _ (mapping-FromPair fs))
  bounded-Makes (model v) = nothing-Makes (model v)
  bounded-Makes other = nothing-Makes other

  list-OfItems : (xs : Items) → OfItems xs (list_children xs)
  list-OfItems nil = tt
  list-OfItems (cons x xs) = (bounded-Makes x, list-OfItems xs)

  mapping-FromPair : (fs : Fields) → All (FromPair fs) (mapping_children fs)
  mapping-FromPair end = tt
  mapping-FromPair (field k w fs) =
      ((w, first, bounded-Makes w), later_pairs k w fs (mapping_children fs) (mapping-FromPair fs))

-- What `_bounded_json_value` keeps is a part of the value.
pub bounded_json_value-IsPart :
    (w : Value) (budget : ℕ) (v : Value) (bs : Bytes)
    → bounded_json_value w budget ≡ some (v, bs)
    → IsPart v w
unfolding Makes
bounded_json_value-IsPart w = bounded-Makes w
