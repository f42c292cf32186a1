-- ===== src/Response/Bounded/Order.antt =====
-- The order of the pairs of a mapping before it is compacted (bridge/server.py).
use stavrobot_imcp_plugin.Prelude.{
  ℕ, suc, arith, Text, text_eq, true, false, List, [], ◌∷◌, ◌++◌, leb, if◌then◌else◌, All, ◌≡◌,
  refl, sym, ap, ◌∙◌, Bool-cases, inl, inr,
}
use stavrobot_imcp_plugin.Response.Bounded.{
  Child, priority, position, insert_item, ordered_mapping_items,
}

abbrev Item : Type 0
Item = Text × Child

-- The items with a key, and those with another, each as they stood.
abbrev pub with_key : Text → List Item → List Item
with_key p [] = []
with_key p ((k, g) ∷ items) = if text_eq k p then (k, g) ∷ with_key p items else with_key p items

abbrev pub without_key : Text → List Item → List Item
without_key p [] = []
without_key p ((k, g) ∷ items) =
    if text_eq k p then without_key p items else (k, g) ∷ without_key p items

-- The items of the first key, then those of the second, and so on, and then all others.
abbrev pub by_keys : List Text → List Item → List Item
by_keys [] items = items
by_keys (p ∷ ps) items = with_key p items ++ by_keys ps (without_key p items)

abbrev insert_by : List Text → Item → List Item → List Item
insert_by ps item [] = item ∷ []
insert_by ps item (other ∷ rest) =
    if leb (position item.0 ps) (position other.0 ps)
    then item ∷ other ∷ rest
    else other ∷ insert_by ps item rest

insert_item-insert_by :
    (item : Item) (items : List Item) → insert_item item items ≡ insert_by priority item items
unfolding insert_item
insert_item-insert_by item [] = refl
insert_item-insert_by item (other ∷ rest) =
    ap
      (λ r.
        if leb (position item.0 priority) (position other.0 priority)
        then item ∷ other ∷ rest
        else other ∷ r)
      (insert_item-insert_by item rest)

abbrev Lacks : Text → Item → Type 0
Lacks p item = text_eq item.0 p ≡ false

abbrev Has : Text → Item → Type 0
Has p item = text_eq item.0 p ≡ true

without_key-Lacks : (p : Text) (items : List Item) → All (Lacks p) (without_key p items)
without_key-Lacks p [] = tt
without_key-Lacks p (item ∷ items) = elim (Bool-cases (text_eq item.0 p)) [
  | inl same ↦ rw same (without_key-Lacks p items)
  | inr other ↦ rw other (other, without_key-Lacks p items)
]

with_key-Has : (p : Text) (items : List Item) → All (Has p) (with_key p items)
with_key-Has p [] = tt
with_key-Has p (item ∷ items) = elim (Bool-cases (text_eq item.0 p)) [
  | inl same ↦ rw same (same, with_key-Has p items)
  | inr other ↦ rw other (with_key-Has p items)
]

module _ (P : Item → Type 0) where
  with_key-All : (p : Text) (items : List Item) → All P items → All P (with_key p items)
  with_key-All p [] h = tt
  with_key-All p (item ∷ items) (h, hs) = elim (Bool-cases (text_eq item.0 p)) [
    | inl same ↦ rw same (h, with_key-All p items hs)
    | inr other ↦ rw other (with_key-All p items hs)
  ]

  without_key-All : (p : Text) (items : List Item) → All P items → All P (without_key p items)
  without_key-All p [] h = tt
  without_key-All p (item ∷ items) (h, hs) = elim (Bool-cases (text_eq item.0 p)) [
    | inl same ↦ rw same (without_key-All p items hs)
    | inr other ↦ rw other (h, without_key-All p items hs)
  ]

  All-append : (xs ys : List Item) → All P xs → All P ys → All P (xs ++ ys)
  All-append [] ys h k = k
  All-append (x ∷ xs) ys (h, hs) k = (h, All-append xs ys hs k)

  by_keys-All : (ps : List Text) (items : List Item) → All P items → All P (by_keys ps items)
  by_keys-All [] items h = h
  by_keys-All (p ∷ ps) items h =
      All-append (with_key p items) _ (with_key-All p items h)
        (by_keys-All ps (without_key p items) (without_key-All p items h))

leb-zero : (n : ℕ) → leb 0 n ≡ true
leb-zero n = ground arith

leb-suc_zero : (n : ℕ) → leb (suc n) 0 ≡ false
leb-suc_zero n = ground arith

leb-suc : (m n : ℕ) → leb (suc m) (suc n) ≡ leb m n
leb-suc m n = ground arith

position-first : (p k : Text) (ps : List Text) → text_eq k p ≡ true → position k (p ∷ ps) ≡ 0
unfolding position
position-first p k ps h = rw h refl

position-behind :
    (p k : Text) (ps : List Text) → text_eq k p ≡ false → position k (p ∷ ps) ≡ suc (position k ps)
unfolding position
position-behind p k ps h = rw h refl

-- An item of the first key goes in front of everything.
insert_by-first :
    (p : Text) (ps : List Text) (item : Item) (items : List Item)
    → Has p item
    → insert_by (p ∷ ps) item items ≡ item ∷ items
insert_by-first p ps item [] h = refl
insert_by-first p ps item (other ∷ rest) h =
    rw (position-first p item.0 ps h, leb-zero (position other.0 (p ∷ ps))) refl

-- An item of another key goes behind the items of the first.
insert_by-behind :
    (p : Text) (ps : List Text) (item : Item) (xs ys : List Item)
    → Lacks p item
    → All (Has p) xs
    → insert_by (p ∷ ps) item (xs ++ ys) ≡ xs ++ insert_by (p ∷ ps) item ys
insert_by-behind p ps item [] ys h k = refl
insert_by-behind p ps item (x ∷ xs) ys h (k, ks) =
    rw (position-behind p item.0 ps h, position-first p x.0 ps k, leb-suc_zero (position item.0 ps))
      (ap (λ r. x ∷ r) (insert_by-behind p ps item xs ys h ks))

-- Among items of other keys the first key makes no difference.
insert_by-skip :
    (p : Text) (ps : List Text) (item : Item) (items : List Item)
    → Lacks p item
    → All (Lacks p) items
    → insert_by (p ∷ ps) item items ≡ insert_by ps item items
insert_by-skip p ps item [] h k = refl
insert_by-skip p ps item (other ∷ rest) h (k, ks) =
    rw
      (
        position-behind p item.0 ps h,
        position-behind p other.0 ps k,
        leb-suc (position item.0 ps) (position other.0 ps),
        insert_by-skip p ps item rest h ks,
      )
      refl

by_keys-cons :
    (ps : List Text) (item : Item) (items : List Item)
    → by_keys ps (item ∷ items) ≡ insert_by ps item (by_keys ps items)
unfolding position
by_keys-cons [] item [] = refl
by_keys-cons [] item (other ∷ items) = refl
by_keys-cons (p ∷ ps) item items = elim (Bool-cases (text_eq item.0 p)) [
  | inl same ↦ rw same (sym (insert_by-first p ps item (by_keys (p ∷ ps) items) same))
  | inr other ↦
      let others = without_key p items in
      rw other (
        ap (λ r. with_key p items ++ r)
          (by_keys-cons ps item others
            ∙ sym (
                insert_by-skip p ps item (by_keys ps others) other
                  (by_keys-All (Lacks p) ps others (without_key-Lacks p items))))
        ∙ sym (
            insert_by-behind p ps item (with_key p items) (by_keys ps others) other
              (with_key-Has p items)))
]

-- `_ordered_mapping_items` gives the items of each known name, in the order of the names, and then
-- all other items; items of one name, and the others among themselves, stay in their order.
pub ordered_mapping_items-by_keys :
    (items : List (Text × Child)) → ordered_mapping_items items ≡ by_keys priority items
unfolding ordered_mapping_items
ordered_mapping_items-by_keys [] = refl
ordered_mapping_items-by_keys (item ∷ items) =
    insert_item-insert_by item (ordered_mapping_items items)
    ∙ ap (insert_by priority item) (ordered_mapping_items-by_keys items)
    ∙ sym (by_keys-cons priority item items)
