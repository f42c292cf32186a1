-- ===== src/Json/Dump/Write.antt =====
-- Data without lone surrogates, and the bytes that `_dump_json` writes for it.
use Prim.Native.Nat.{◌<◌}
use mathlib.Core.List.{append_assoc}
use stavrobot_imcp_plugin.Prelude.{
  ℕ, zero, suc, ◌+◌, ◌/◌, ◌%◌, ◌≡◌, refl, Text, codes, Bool, true, false, not, ◌&&◌, some, [], ◌∷◌,
  ◌++◌, All, All-append, arith,
}
use stavrobot_imcp_plugin.Json.{
  ℤ, pos, negsuc, Value, null, bool, int, float, not_finite, str, arr, obj, model, other, Items,
  nil, cons, Fields, end, field,
}
use stavrobot_imcp_plugin.Json.Dump.{
  Bytes, decimal, int_text, nibble, unicode_escape, short_escape, escape_char, escape, quote, dumps,
  dumps_items, dumps_fields, is_surrogate, utf8, utf8_char, dump_json,
}

-- No code point of the text is a surrogate.
abbrev pub IsScalar : Text → Type 0
IsScalar s = All (λ c. is_surrogate c ≡ false) s

unfoldable pub is_scalar : Text → Bool
is_scalar [] = true
is_scalar (c ∷ s) = not (is_surrogate c) && is_scalar s

pub is_scalar-IsScalar : (s : Text) → is_scalar s ≡ true → IsScalar s
unfolding is_scalar
is_scalar-IsScalar [] h = tt
is_scalar-IsScalar (c ∷ s) h = ground (arith, is_scalar-IsScalar s)

-- JSON data all of whose texts are free of surrogates.
abbrev mutual
  pub IsClean : Value → Type 0
  IsClean null = Unit
  IsClean (bool b) = Unit
  IsClean (int i) = Unit
  IsClean (float repr) = IsScalar repr
  IsClean not_finite = ⊥
  IsClean (str s) = IsScalar s
  IsClean (arr xs) = IsCleanItems xs
  IsClean (obj fs) = IsCleanFields fs
  IsClean (model v) = ⊥
  IsClean other = ⊥

  pub IsCleanItems : Items → Type 0
  IsCleanItems nil = Unit
  IsCleanItems (cons x xs) = IsClean x × IsCleanItems xs

  pub IsCleanFields : Fields → Type 0
  IsCleanFields end = Unit
  IsCleanFields (field k v fs) = IsScalar k × IsClean v × IsCleanFields fs

-- The text that `json.dumps` writes for clean data.
unfoldable mutual
  unfolding quote int_text

  pub write : Value → Text
  write null = codes "null"
  write (bool true) = codes "true"
  write (bool false) = codes "false"
  write (int i) = int_text i
  write (float repr) = repr
  write not_finite = []
  write (str s) = quote false s
  write (arr xs) = b'[' ∷ (write_items xs ++ b']' ∷ [])
  write (obj fs) = b'{' ∷ (write_fields fs ++ b'}' ∷ [])
  write (model v) = []
  write other = []

  pub write_items : Items → Text
  write_items nil = []
  write_items (cons x nil) = write x
  write_items (cons x (cons y ys)) = write x ++ b',' ∷ write_items (cons y ys)

  pub write_fields : Fields → Text
  write_fields end = []
  write_fields (field k v end) = quote false k ++ b':' ∷ write v
  write_fields (field k v (field j w fs)) =
      (quote false k ++ b':' ∷ write v) ++ b',' ∷ write_fields (field j w fs)

mutual
  unfolding dumps write

  dumps-write : (v : Value) → IsClean v → dumps false v ≡ some (write v)
  dumps-write null h = refl
  dumps-write (bool true) h = refl
  dumps-write (bool false) h = refl
  dumps-write (int i) h = refl
  dumps-write (float repr) h = refl
  dumps-write not_finite h = absurd h
  dumps-write (str s) h = refl
  dumps-write (arr xs) h = rw (dumps_items-write xs h)
  dumps-write (obj fs) h = rw (dumps_fields-write fs h)
  dumps-write (model v) h = absurd h
  dumps-write other h = absurd h

  dumps_items-write : (xs : Items) → IsCleanItems xs → dumps_items false xs ≡ some (write_items xs)
  dumps_items-write nil h = refl
  dumps_items-write (cons x nil) h = dumps-write x h.0
  dumps_items-write (cons x (cons y ys)) h =
      rw (dumps-write x h.0, dumps_items-write (cons y ys) h.1)

  dumps_fields-write :
      (fs : Fields) → IsCleanFields fs → dumps_fields false fs ≡ some (write_fields fs)
  dumps_fields-write end h = refl
  dumps_fields-write (field k v end) h = rw (dumps-write v h.1)
  dumps_fields-write (field k v (field j w fs)) h =
      rw (dumps-write v h.1, dumps_fields-write (field j w fs) h.2)

nibble-scalar : (d : ℕ) → d < 16 → is_surrogate (nibble d) ≡ false
unfolding nibble is_surrogate
nibble-scalar d h = ground arith

unicode_escape-IsScalar : (c : ℕ) → IsScalar (unicode_escape c)
unfolding unicode_escape is_surrogate
unicode_escape-IsScalar c = (
  refl,
  (
    refl,
    (
      nibble-scalar (c / 4096 % 16) (omega arith),
      (
        nibble-scalar (c / 256 % 16) (omega arith),
        (nibble-scalar (c / 16 % 16) (omega arith), (nibble-scalar (c % 16) (omega arith), tt)),
      ),
    ),
  ),
)

escape_char-IsScalar : (c : ℕ) → is_surrogate c ≡ false → IsScalar (escape_char false c)
unfolding escape_char short_escape is_surrogate
escape_char-IsScalar c h = ground (arith, unicode_escape-IsScalar c)

escape-IsScalar : (s : Text) → IsScalar s → IsScalar (escape false s)
unfolding escape
escape-IsScalar [] h = tt
escape-IsScalar (c ∷ s) h =
    All-append _ (escape_char false c) (escape false s) (escape_char-IsScalar c h.0)
      (escape-IsScalar s h.1)

pub quote-IsScalar : (s : Text) → IsScalar s → IsScalar (quote false s)
unfolding quote is_surrogate
quote-IsScalar s h =
    (refl, All-append _ (escape false s) (b'"' ∷ []) (escape-IsScalar s h) (refl, tt))

decimal-IsScalar : (f n : ℕ) (acc : Text) → IsScalar acc → IsScalar (decimal f n acc)
unfolding decimal is_surrogate
decimal-IsScalar zero n acc h = h
decimal-IsScalar (suc f) n acc h =
    ground (arith, decimal-IsScalar f (n / 10) ((b'0' + n % 10) ∷ acc))

int_text-IsScalar : (i : ℤ) → IsScalar (int_text i)
unfolding int_text is_surrogate
int_text-IsScalar (pos n) = decimal-IsScalar (suc n) n [] tt
int_text-IsScalar (negsuc n) = (refl, decimal-IsScalar (suc (suc n)) (suc n) [] tt)

-- Two scalar texts with an ASCII separator between them.
join-IsScalar :
    (s t : Text) (c : ℕ) → is_surrogate c ≡ false → IsScalar s → IsScalar t → IsScalar (s ++ c ∷ t)
join-IsScalar s t c e h k = All-append _ s (c ∷ t) h (e, k)

mutual
  unfolding write is_surrogate

  write-IsScalar : (v : Value) → IsClean v → IsScalar (write v)
  write-IsScalar null h = (refl, (refl, (refl, (refl, tt))))
  write-IsScalar (bool true) h = (refl, (refl, (refl, (refl, tt))))
  write-IsScalar (bool false) h = (refl, (refl, (refl, (refl, (refl, tt)))))
  write-IsScalar (int i) h = int_text-IsScalar i
  write-IsScalar (float repr) h = h
  write-IsScalar not_finite h = absurd h
  write-IsScalar (str s) h = quote-IsScalar s h
  write-IsScalar (arr xs) h =
      (refl, join-IsScalar (write_items xs) [] b']' refl (items-IsScalar xs h) tt)
  write-IsScalar (obj fs) h =
      (refl, join-IsScalar (write_fields fs) [] b'}' refl (fields-IsScalar fs h) tt)
  write-IsScalar (model v) h = absurd h
  write-IsScalar other h = absurd h

  items-IsScalar : (xs : Items) → IsCleanItems xs → IsScalar (write_items xs)
  items-IsScalar nil h = tt
  items-IsScalar (cons x nil) h = write-IsScalar x h.0
  items-IsScalar (cons x (cons y ys)) h =
      join-IsScalar (write x) (write_items (cons y ys)) b',' refl (write-IsScalar x h.0)
        (items-IsScalar (cons y ys) h.1)

  fields-IsScalar : (fs : Fields) → IsCleanFields fs → IsScalar (write_fields fs)
  fields-IsScalar end h = tt
  fields-IsScalar (field k v end) h =
      join-IsScalar (quote false k) (write v) b':' refl (quote-IsScalar k h.0)
        (write-IsScalar v h.1)
  fields-IsScalar (field k v (field j w fs)) h =
      join-IsScalar (quote false k ++ b':' ∷ write v) (write_fields (field j w fs)) b',' refl
        (join-IsScalar (quote false k) (write v) b':' refl (quote-IsScalar k h.0)
          (write-IsScalar v h.1))
        (fields-IsScalar (field j w fs) h.2)

-- UTF-8 of a text without surrogates.
unfoldable pub utf8_all : Text → Bytes
unfolding utf8_char
utf8_all [] = []
utf8_all (c ∷ s) = utf8_char c ++ utf8_all s

pub utf8_all-append : (s t : Text) → utf8_all (s ++ t) ≡ utf8_all s ++ utf8_all t
unfolding utf8_all
utf8_all-append [] t = refl
utf8_all-append (c ∷ s) t = rw (utf8_all-append s t, append_assoc)

utf8-scalar : (s : Text) → IsScalar s → utf8 s ≡ some (utf8_all s)
unfolding utf8 utf8_all
utf8-scalar [] h = refl
utf8-scalar (c ∷ s) h = rw (h.0, utf8-scalar s h.1)

-- The bytes of clean data.
unfoldable pub encode : Value → Bytes
unfolding write utf8_all
encode v = utf8_all (write v)

-- `_dump_json` writes clean data as UTF-8, and never falls back to ASCII escapes.
pub dump_json-clean : (v : Value) → IsClean v → dump_json v ≡ some (encode v)
unfolding dump_json encode
dump_json-clean v h = rw (dumps-write v h, utf8-scalar (write v) (write-IsScalar v h))
