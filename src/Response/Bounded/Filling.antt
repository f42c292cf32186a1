-- ===== src/Response/Bounded/Filling.antt =====
-- The pairs and items that `_bounded_json_value` keeps (bridge/server.py).
use stavrobot_imcp_plugin.Prelude.{
  ℕ, ◌+◌, ◌-◌, ◌≤◌, ◌≡◌, refl, Text, Option, none, some, List, [], ◌∷◌, ◌++◌, All, arith, length,
  length-append,
}
use stavrobot_imcp_plugin.Json.{Value, str}
use stavrobot_imcp_plugin.Json.Dump.{Bytes}
use stavrobot_imcp_plugin.Json.Dump.Write.{IsScalar, IsClean, IsCleanItems, IsCleanFields, encode}
use stavrobot_imcp_plugin.Response.Bounded.{
  Child, dump_text, fit_pair, fill_pairs, fit_item, fill_items, pair_fields, join_pairs, list_items,
  join_items,
}
use stavrobot_imcp_plugin.Response.Bounded.Strings.{FitsAlways, FitsPair, dump_text-scalar}

-- The encoding of a pair that is kept.
unfoldable pub encode_pair : Text → Value → Bytes
encode_pair k v = encode (str k) ++ b':' ∷ encode v

abbrev pub KeptPair : Text × Value × Bytes → Type 0
KeptPair (k, v, pair) = IsScalar k × IsClean v × (pair ≡ encode_pair k v)

abbrev pub KeptItem : Value × Bytes → Type 0
KeptItem (v, bs) = IsClean v × (bs ≡ encode v)

-- What a kept pair is worth, and that it stays within the budget with the closing brace.
abbrev FitsPairAt : ℕ → ℕ → Text → Option (Value × Bytes) → Type 0
FitsPairAt budget start k none = Unit
FitsPairAt budget start k (some (v, pair)) =
    KeptPair (k, v, pair) × (start + length pair + 1 ≤ budget)

fit_pair-Fits :
    (budget used separator : ℕ) (k : Text) (child : Child)
    → FitsPair (k, child)
    → FitsPairAt budget (used + separator) k (fit_pair budget used separator k child)
unfolding fit_pair encode_pair
fit_pair-Fits budget used separator k child h =
    ground (
      arith,
      dump_text-scalar k h.0,
      h.1 (budget - used - separator - length (dump_text k) - 2),
      h.0,
    )

abbrev FitsItemAt : ℕ → ℕ → Option (Value × Bytes) → Type 0
FitsItemAt budget start none = Unit
FitsItemAt budget start (some (v, bs)) = KeptItem (v, bs) × (start + length bs + 1 ≤ budget)

fit_item-Fits :
    (budget used separator : ℕ) (child : Child)
    → FitsAlways child
    → FitsItemAt budget (used + separator) (fit_item budget used separator child)
unfolding fit_item
fit_item-Fits budget used separator child h = ground (arith, h (budget - used - separator - 1))

-- The bytes between the braces, the first pair behind `separator` bytes.
abbrev pub pairs_size : ℕ → List (Text × Value × Bytes) → ℕ
pairs_size separator [] = 0
pairs_size separator ((k, v, pair) ∷ kept) = separator + length pair + pairs_size 1 kept

abbrev pub items_size : ℕ → List (Value × Bytes) → ℕ
items_size separator [] = 0
items_size separator ((v, bs) ∷ kept) = separator + length bs + items_size 1 kept

pub length-join_pairs :
    (kept : List (Text × Value × Bytes)) → length (join_pairs kept) ≡ pairs_size 0 kept
unfolding join_pairs
length-join_pairs [] = refl
length-join_pairs ((k, v, pair) ∷ []) = omega arith
length-join_pairs ((k, v, pair) ∷ (j, w, p) ∷ ps) = omega (
  arith,
  length-append pair (b',' ∷ join_pairs ((j, w, p) ∷ ps)),
  length-join_pairs ((j, w, p) ∷ ps),
)

pub length-join_items : (kept : List (Value × Bytes)) → length (join_items kept) ≡ items_size 0 kept
unfolding join_items
length-join_items [] = refl
length-join_items ((v, bs) ∷ []) = omega arith
length-join_items ((v, bs) ∷ (w, p) ∷ ps) =
    omega
      (arith, length-append bs (b',' ∷ join_items ((w, p) ∷ ps)), length-join_items ((w, p) ∷ ps))

pub fill_pairs-Fits :
    (budget used separator : ℕ) (items : List (Text × Child))
    → All FitsPair items
    → used + 1 ≤ budget
    → All KeptPair (fill_pairs budget used separator items)
      × (used + pairs_size separator (fill_pairs budget used separator items) + 1 ≤ budget)
unfolding fill_pairs
fill_pairs-Fits budget used separator [] h le = (tt, omega arith)
fill_pairs-Fits budget used separator ((k, child) ∷ items) h le =
    go (fit_pair budget used separator k child) (fit_pair-Fits budget used separator k child h.0)
      (fill_pairs-Fits budget used separator items h.1 le)
      (λ used' le'. fill_pairs-Fits budget used' 1 items h.1 le')
  where
    step : Option (Value × Bytes) → List (Text × Value × Bytes)
    step o = elim o [
      | none ↦ fill_pairs budget used separator items
      | some (v, pair) ↦ (k, v, pair) ∷ fill_pairs budget (used + separator + length pair) 1 items
    ]

    go :
        (o : Option (Value × Bytes))
        → FitsPairAt budget (used + separator) k o
        → (All KeptPair (fill_pairs budget used separator items)
            × (used + pairs_size separator (fill_pairs budget used separator items) + 1 ≤ budget))
        → ((used' : ℕ)
            → used' + 1 ≤ budget
            → All KeptPair (fill_pairs budget used' 1 items)
              × (used' + pairs_size 1 (fill_pairs budget used' 1 items) + 1 ≤ budget))
        → All KeptPair (step o) × (used + pairs_size separator (step o) + 1 ≤ budget)
    go none f skip next = skip
    go (some (v, pair)) f skip next =
        let r : All KeptPair (fill_pairs budget (used + separator + length pair) 1 items)
            × ((used + separator + length pair)
                  + pairs_size 1 (fill_pairs budget (used + separator + length pair) 1 items)
                  + 1
                ≤ budget) =
          next (used + separator + length pair) (omega arith) in
        ((f.0, r.0), omega arith)

pub fill_items-Fits :
    (budget used separator : ℕ) (items : List Child)
    → All FitsAlways items
    → used + 1 ≤ budget
    → All KeptItem (fill_items budget used separator items)
      × (used + items_size separator (fill_items budget used separator items) + 1 ≤ budget)
unfolding fill_items
fill_items-Fits budget used separator [] h le = (tt, omega arith)
fill_items-Fits budget used separator (child ∷ items) h le =
    go (fit_item budget used separator child) (fit_item-Fits budget used separator child h.0)
      (λ used' le'. fill_items-Fits budget used' 1 items h.1 le')
  where
    step : Option (Value × Bytes) → List (Value × Bytes)
    step o = elim o [
      | none ↦ []
      | some (v, bs) ↦ (v, bs) ∷ fill_items budget (used + separator + length bs) 1 items
    ]

    go :
        (o : Option (Value × Bytes))
        → FitsItemAt budget (used + separator) o
        → ((used' : ℕ)
            → used' + 1 ≤ budget
            → All KeptItem (fill_items budget used' 1 items)
              × (used' + items_size 1 (fill_items budget used' 1 items) + 1 ≤ budget))
        → All KeptItem (step o) × (used + items_size separator (step o) + 1 ≤ budget)
    go none f next = (tt, omega arith)
    go (some (v, bs)) f next =
        let r : All KeptItem (fill_items budget (used + separator + length bs) 1 items)
            × ((used + separator + length bs)
                  + items_size 1 (fill_items budget (used + separator + length bs) 1 items)
                  + 1
                ≤ budget) =
          next (used + separator + length bs) (omega arith) in
        ((f.0, r.0), omega arith)

pub pair_fields-IsClean :
    (kept : List (Text × Value × Bytes)) → All KeptPair kept → IsCleanFields (pair_fields kept)
unfolding pair_fields
pair_fields-IsClean [] h = tt
pair_fields-IsClean ((k, v, pair) ∷ kept) h = (h.0.0, h.0.1, pair_fields-IsClean kept h.1)

pub list_items-IsClean :
    (kept : List (Value × Bytes)) → All KeptItem kept → IsCleanItems (list_items kept)
unfolding list_items
list_items-IsClean [] h = tt
list_items-IsClean ((v, bs) ∷ kept) h = (h.0.0, list_items-IsClean kept h.1)
