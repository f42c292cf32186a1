-- ===== src/Response/Bounded/Fits.antt =====
-- The bytes and the budget of `_bounded_json_value` on clean data (bridge/server.py).
use stavrobot_imcp_plugin.Prelude.{
  ℕ, ◌+◌, ◌≤◌, ◌≡◌, refl, sym, ap, ◌∙◌, Text, false, List, [], ◌∷◌, ◌++◌, All, arith, ltb, leb,
  length, length-append, inl, inr, Bool-cases,
}
use stavrobot_imcp_plugin.Json.{
  Value, null, bool, int, float, not_finite, str, arr, obj, model, other, Items, nil, cons, Fields,
  end, field,
}
use stavrobot_imcp_plugin.Json.Dump.{Bytes, quote}
use stavrobot_imcp_plugin.Json.Dump.Write.{
  IsClean, IsCleanItems, IsCleanFields, write, write_items, write_fields, utf8_all, utf8_all-append,
  encode,
}
use stavrobot_imcp_plugin.Response.Bounded.{
  Child, position, priority, insert_item, ordered_mapping_items, fill_pairs, fill_items,
  pair_fields, join_pairs, list_items, join_items, bounded_mapping, bounded_list, guarded,
  bounded_json_value, mapping_children, list_children,
}
use stavrobot_imcp_plugin.Response.Bounded.Strings.{
  Fits, FitsAlways, FitsPair, bounded_str-Fits, bounded_scalar-Fits,
}
use stavrobot_imcp_plugin.Response.Bounded.Filling.{
  encode_pair, KeptPair, KeptItem, pairs_size, items_size, length-join_pairs, length-join_items,
  fill_pairs-Fits, fill_items-Fits, pair_fields-IsClean, list_items-IsClean,
}

pub utf8_pair :
    (k : Text) (v : Value) → utf8_all (quote false k ++ b':' ∷ write v) ≡ encode_pair k v
unfolding encode_pair encode write
utf8_pair k v = utf8_all-append (quote false k) (b':' ∷ write v)

utf8-pair_fields :
    (kept : List (Text × Value × Bytes))
    → All KeptPair kept
    → utf8_all (write_fields (pair_fields kept)) ≡ join_pairs kept
unfolding write pair_fields join_pairs utf8_all
utf8-pair_fields [] h = refl
utf8-pair_fields ((k, v, pair) ∷ []) h = utf8_pair k v ∙ sym h.0.2
utf8-pair_fields ((k, v, pair) ∷ (j, w, p) ∷ ps) h =
    utf8_all-append (quote false k ++ b':' ∷ write v)
      (b',' ∷ write_fields (pair_fields ((j, w, p) ∷ ps)))
    ∙ ap (λ (bs : Bytes). bs ++ b',' ∷ utf8_all (write_fields (pair_fields ((j, w, p) ∷ ps))))
        (utf8_pair k v ∙ sym h.0.2)
    ∙ ap (λ (bs : Bytes). pair ++ b',' ∷ bs) (utf8-pair_fields ((j, w, p) ∷ ps) h.1)

utf8-list_items :
    (kept : List (Value × Bytes))
    → All KeptItem kept
    → utf8_all (write_items (list_items kept)) ≡ join_items kept
unfolding write list_items join_items encode
utf8-list_items [] h = refl
utf8-list_items ((v, bs) ∷ []) h = sym h.0.1
utf8-list_items ((v, bs) ∷ (w, p) ∷ ps) h =
    rw (utf8_all-append (write v) (b',' ∷ write_items (list_items ((w, p) ∷ ps))), h.0.1)
      (ap (λ (cs : Bytes). encode v ++ b',' ∷ cs) (utf8-list_items ((w, p) ∷ ps) h.1))

pub encode-obj : (fs : Fields) → encode (obj fs) ≡ b'{' ∷ (utf8_all (write_fields fs) ++ b'}' ∷ [])
unfolding encode write utf8_all
encode-obj fs = ap (◌∷◌ b'{') (utf8_all-append (write_fields fs) (b'}' ∷ []))

encode-arr : (xs : Items) → encode (arr xs) ≡ b'[' ∷ (utf8_all (write_items xs) ++ b']' ∷ [])
unfolding encode write utf8_all
encode-arr xs = ap (◌∷◌ b'[') (utf8_all-append (write_items xs) (b']' ∷ []))

insert_item-All :
    (item : Text × Child) (items : List (Text × Child))
    → FitsPair item
    → All FitsPair items
    → All FitsPair (insert_item item items)
unfolding insert_item
insert_item-All (k, g) [] h hs = (h, tt)
insert_item-All (k, g) ((j, c) ∷ items) h hs =
    elim (Bool-cases (leb (position k priority) (position j priority))) [
      | inl e ↦ rw e (h, hs)
      | inr e ↦ rw e (hs.0, insert_item-All (k, g) items h hs.1)
    ]

ordered_mapping_items-All :
    (items : List (Text × Child)) → All FitsPair items → All FitsPair (ordered_mapping_items items)
unfolding ordered_mapping_items
ordered_mapping_items-All [] h = tt
ordered_mapping_items-All (item ∷ items) h =
    insert_item-All item (ordered_mapping_items items) h.0 (ordered_mapping_items-All items h.1)

wrapped : (l r : ℕ) (bs : Bytes) → length (l ∷ (bs ++ r ∷ [])) ≡ length bs + 2
wrapped l r bs = omega (arith, length-append bs (r ∷ []))

bounded_mapping-Fits :
    (items : List (Text × Child)) → All FitsPair items → FitsAlways (bounded_mapping items)
unfolding bounded_mapping
bounded_mapping-Fits items h budget = elim (Bool-cases (ltb budget 2)) [
  | inl e ↦ rw e tt
  | inr e ↦ rw e (
      let sorted : List (Text × Child) = ordered_mapping_items items in
      let kept : List (Text × Value × Bytes) = fill_pairs budget 1 0 sorted in
      let r : All KeptPair kept × (1 + pairs_size 0 kept + 1 ≤ budget) =
        fill_pairs-Fits budget 1 0 sorted (ordered_mapping_items-All items h) (ground arith) in
      (
        pair_fields-IsClean kept r.0,
        sym (
            encode-obj (pair_fields kept)
            ∙ ap (λ (bs : Bytes). b'{' ∷ (bs ++ b'}' ∷ [])) (utf8-pair_fields kept r.0)),
        omega (arith, r.1, wrapped b'{' b'}' (join_pairs kept), length-join_pairs kept),
      ))
]

bounded_list-Fits : (items : List Child) → All FitsAlways items → FitsAlways (bounded_list items)
unfolding bounded_list
bounded_list-Fits items h budget = elim (Bool-cases (ltb budget 2)) [
  | inl e ↦ rw e tt
  | inr e ↦ rw e (
      let kept : List (Value × Bytes) = fill_items budget 1 0 items in
      let r : All KeptItem kept × (1 + items_size 0 kept + 1 ≤ budget) =
        fill_items-Fits budget 1 0 items h (ground arith) in
      (
        list_items-IsClean kept r.0,
        sym (
            encode-arr (list_items kept)
            ∙ ap (λ (bs : Bytes). b'[' ∷ (bs ++ b']' ∷ [])) (utf8-list_items kept r.0)),
        omega (arith, r.1, wrapped b'[' b']' (join_items kept), length-join_items kept),
      ))
]

guarded-Fits : (child : Child) → FitsAlways child → FitsAlways (guarded child)
unfolding guarded
guarded-Fits child h budget = elim (Bool-cases (leb budget 0)) [
  | inl e ↦ rw e tt
  | inr e ↦ rw e (h budget)
]

mutual
  unfolding bounded_json_value

  bounded-fits : (v : Value) → IsClean v → FitsAlways (bounded_json_value v)
  bounded-fits null h = guarded-Fits _ (bounded_scalar-Fits null h)
  bounded-fits (bool b) h = guarded-Fits _ (bounded_scalar-Fits (bool b) h)
  bounded-fits (int i) h = guarded-Fits _ (bounded_scalar-Fits (int i) h)
  bounded-fits (float repr) h = guarded-Fits _ (bounded_scalar-Fits (float repr) h)
  bounded-fits not_finite h = absurd h
  bounded-fits (str s) h = guarded-Fits _ (bounded_str-Fits s h)
  bounded-fits (arr xs) h = guarded-Fits _ (bounded_list-Fits _ (list-fits xs h))
  bounded-fits (obj fs) h = guarded-Fits _ (bounded_mapping-Fits _ (mapping-fits fs h))
  bounded-fits (model v) h = absurd h
  bounded-fits other h = absurd h

  list-fits : (xs : Items) → IsCleanItems xs → All FitsAlways (list_children xs)
  list-fits nil h = tt
  list-fits (cons x xs) h = (bounded-fits x h.0, list-fits xs h.1)

  mapping-fits : (fs : Fields) → IsCleanFields fs → All FitsPair (mapping_children fs)
  mapping-fits end h = tt
  mapping-fits (field k v fs) h = ((h.0, bounded-fits v h.1), mapping-fits fs h.2)

-- For JSON data without lone surrogates and any budget, what `_bounded_json_value` returns, if
-- anything, is a value that is again such data, together with exactly the bytes that `_dump_json`
-- writes for that value, and these are at most `budget` bytes.
pub bounded_json_value-Fits :
    (v : Value) (budget : ℕ) → IsClean v → Fits budget (bounded_json_value v budget)
bounded_json_value-Fits v budget h = bounded-fits v h budget
