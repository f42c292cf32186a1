-- ===== src/Response/Bounded.antt =====
-- `_ordered_mapping_items` and `_bounded_json_value` (bridge/server.py).
pub mod Strings
pub mod Filling
pub mod Fits
pub mod Order
pub mod Parts
pub mod Kept
use stavrobot_imcp_plugin.Prelude.{
  ℕ, zero, suc, ◌+◌, ◌-◌, Text, codes, text_eq, Bool, true, false, Option, none, some, List, [],
  ◌∷◌, ◌++◌, length, ltb, leb, if◌then◌else◌,
}
use stavrobot_imcp_plugin.Json.{
  Value, null, bool, int, float, not_finite, str, arr, obj, model, other, Items, nil, cons, Fields,
  end, field,
}
use stavrobot_imcp_plugin.Json.Dump.{Bytes, dump_json, quote, ◌>>=◌}

abbrev pub priority : List Text
priority =
    codes "isError"
    ∷ codes "structuredContent"
    ∷ codes "resultType"
    ∷ codes "_meta"
    ∷ codes "content"
    ∷ codes "structured_content"
    ∷ codes "is_error"
    ∷ []

-- `positions.get(key, len(priority))`.
unfoldable pub position : Text → List Text → ℕ
unfolding text_eq
position k [] = 0
position k (p ∷ ps) = if text_eq k p then 0 else suc (position k ps)

-- What the traversal makes of one child: for each budget a pruned value and its bytes.
abbrev pub Child : Type 0
Child = ℕ → Option (Value × Bytes)

-- `sorted` is stable: an item goes behind the items of the same position.
insert_item : Text × Child → List (Text × Child) → List (Text × Child)
unfolding position
insert_item (k, g) [] = (k, g) ∷ []
insert_item (k, g) ((j, h) ∷ rest) =
    if leb (position k priority) (position j priority)
    then (k, g) ∷ (j, h) ∷ rest
    else (j, h) ∷ insert_item (k, g) rest

unfoldable pub ordered_mapping_items : List (Text × Child) → List (Text × Child)
unfolding insert_item
ordered_mapping_items [] = []
ordered_mapping_items (item ∷ items) = insert_item item (ordered_mapping_items items)

-- `_dump_json(character)[1:-1]` of a text that `_dump_json` always encodes.
drop_last : Bytes → Bytes
drop_last [] = []
drop_last (b ∷ []) = []
drop_last (b ∷ c ∷ cs) = b ∷ drop_last (c ∷ cs)

strip_quotes : Bytes → Bytes
unfolding drop_last
strip_quotes [] = []
strip_quotes (q ∷ bs) = drop_last bs

-- `_dump_json` of a string, which never fails.
unfoldable pub dump_text : Text → Bytes
unfolding dump_json
dump_text s = elim (dump_json (str s)) [ none ↦ [] | some bs ↦ bs ]

unfoldable pub fragment : ℕ → Bytes
unfolding strip_quotes dump_text
fragment c = strip_quotes (dump_text (c ∷ []))

-- The characters that the loop copies, from `used` bytes on.
unfoldable pub take_characters : ℕ → ℕ → Text → Text
unfolding fragment
take_characters budget used [] = []
take_characters budget used (c ∷ s) =
    let rest = take_characters budget (used + length (fragment c)) s in
    if ltb budget (used + length (fragment c)) then [] else c ∷ rest

unfoldable pub bounded_str : Text → Child
unfolding dump_text take_characters
bounded_str s budget =
    if leb (length (dump_text s)) budget
    then some (str s, dump_text s)
    else if ltb budget 2
    then none
    else (let compacted = take_characters budget 2 s in some (str compacted, dump_text compacted))

unfoldable pub bounded_scalar : Value → Child
unfolding dump_json
bounded_scalar v budget = do
  encoded ← dump_json v
  if leb (length encoded) budget then some (v, encoded) else none

-- One round of the loop over a mapping: the child and the bytes of the pair, if they are kept.
unfoldable pub fit_pair : ℕ → ℕ → ℕ → Text → Child → Option (Value × Bytes)
unfolding dump_text
fit_pair budget used separator k child =
    let encoded_key = dump_text k in
    let child_budget = budget - used - separator - length encoded_key - 2 in
    if leb child_budget 0 then none else do
      found ← child child_budget
      let pair = encoded_key ++ b':' ∷ found.1
      if ltb budget (used + separator + length pair + 1) then none else some (found.0, pair)

-- The pairs that are kept, from `used` bytes on; a pair that does not fit is passed over.
unfoldable pub fill_pairs : ℕ → ℕ → ℕ → List (Text × Child) → List (Text × Value × Bytes)
unfolding fit_pair
fill_pairs budget used separator [] = []
fill_pairs budget used separator ((k, child) ∷ items) =
    elim (fit_pair budget used separator k child) [
      | none ↦ fill_pairs budget used separator items
      | some (v, pair) ↦ (k, v, pair) ∷ fill_pairs budget (used + separator + length pair) 1 items
    ]

-- One round of the loop over a list.
unfoldable pub fit_item : ℕ → ℕ → ℕ → Child → Option (Value × Bytes)
fit_item budget used separator child =
    let child_budget = budget - used - separator - 1 in
    if leb child_budget 0 then none else do
      found ← child child_budget
      if ltb budget (used + separator + length found.1 + 1) then none else some found

-- The items that are kept: the loop ends at the first that does not fit.
unfoldable pub fill_items : ℕ → ℕ → ℕ → List Child → List (Value × Bytes)
unfolding fit_item
fill_items budget used separator [] = []
fill_items budget used separator (child ∷ items) = elim (fit_item budget used separator child) [
  | none ↦ []
  | some (v, encoded) ↦ (v, encoded) ∷ fill_items budget (used + separator + length encoded) 1 items
]

unfoldable pub pair_fields : List (Text × Value × Bytes) → Fields
pair_fields [] = end
pair_fields ((k, v, _) ∷ kept) = field k v (pair_fields kept)

-- `b",".join(...)`.
unfoldable pub join_pairs : List (Text × Value × Bytes) → Bytes
join_pairs [] = []
join_pairs ((k, v, pair) ∷ []) = pair
join_pairs ((k, v, pair) ∷ p ∷ ps) = pair ++ b',' ∷ join_pairs (p ∷ ps)

unfoldable pub list_items : List (Value × Bytes) → Items
list_items [] = nil
list_items ((v, _) ∷ kept) = cons v (list_items kept)

unfoldable pub join_items : List (Value × Bytes) → Bytes
join_items [] = []
join_items ((v, encoded) ∷ []) = encoded
join_items ((v, encoded) ∷ p ∷ ps) = encoded ++ b',' ∷ join_items (p ∷ ps)

unfoldable pub bounded_mapping : List (Text × Child) → Child
unfolding ordered_mapping_items fill_pairs pair_fields join_pairs
bounded_mapping items budget =
    if ltb budget 2
    then none
    else (let kept = fill_pairs budget 1 0 (ordered_mapping_items items) in
        some (obj (pair_fields kept), b'{' ∷ (join_pairs kept ++ b'}' ∷ [])))

unfoldable pub bounded_list : List Child → Child
unfolding fill_items list_items join_items
bounded_list items budget =
    if ltb budget 2
    then none
    else (let kept = fill_items budget 1 0 items in
        some (arr (list_items kept), b'[' ∷ (join_items kept ++ b']' ∷ [])))

-- The first guard of `_bounded_json_value`.
unfoldable pub guarded : Child → Child
guarded child budget = if leb budget 0 then none else child budget

unfoldable mutual
  unfolding guarded bounded_str bounded_scalar bounded_mapping bounded_list

  pub bounded_json_value : Value → Child
  bounded_json_value (str s) = guarded (bounded_str s)
  bounded_json_value null = guarded (bounded_scalar null)
  bounded_json_value (bool b) = guarded (bounded_scalar (bool b))
  bounded_json_value (int i) = guarded (bounded_scalar (int i))
  bounded_json_value (float repr) = guarded (bounded_scalar (float repr))
  bounded_json_value not_finite = guarded (bounded_scalar not_finite)
  bounded_json_value (obj fs) = guarded (bounded_mapping (mapping_children fs))
  bounded_json_value (arr xs) = guarded (bounded_list (list_children xs))
  bounded_json_value (model v) = guarded (λ _. none)
  bounded_json_value other = guarded (λ _. none)

  pub mapping_children : Fields → List (Text × Child)
  mapping_children end = []
  mapping_children (field k v fs) = (k, bounded_json_value v) ∷ mapping_children fs

  pub list_children : Items → List Child
  list_children nil = []
  list_children (cons x xs) = bounded_json_value x ∷ list_children xs
