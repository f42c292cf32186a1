-- ===== src/Json/Dump.antt =====
-- `json.dumps` with compact separators, UTF-8, and `_dump_json` of bridge/server.py.
pub mod Write
use stavrobot_imcp_plugin.Prelude.{
  ℕ, zero, suc, ◌+◌, ◌-◌, ◌/◌, ◌%◌, Text, codes, Bool, true, false, ◌&&◌, Option, none, some, List,
  [], ◌∷◌, ◌++◌, ltb, leb, ◌==◌, if◌then◌else◌,
}
use stavrobot_imcp_plugin.Json.{
  ℤ, pos, negsuc, Value, null, bool, int, float, not_finite, str, arr, obj, model, other, Items,
  nil, cons, Fields, end, field,
}

abbrev pub Bytes : Type 0
Bytes = List ℕ

infixl 5 ◌>>=◌
abbrev pub ◌>>=◌ {ℓ κ} : {A : Type ℓ} {B : Type κ} → Option A → (A → Option B) → Option B
none >>= f = none
some a >>= f = f a

-- Decimal digits, on fuel; `digits` gives more fuel than there are digits.
unfoldable pub decimal : ℕ → ℕ → Text → Text
decimal zero n acc = acc
decimal (suc f) n acc = elim (ltb n 10) [
  | true ↦ (b'0' + n) ∷ acc
  | false ↦ decimal f (n / 10) ((b'0' + n % 10) ∷ acc)
]

unfoldable pub digits : ℕ → Text
unfolding decimal
digits n = decimal (suc n) n []

unfoldable pub int_text : ℤ → Text
unfolding digits
int_text (pos n) = digits n
int_text (negsuc n) = b'-' ∷ digits (suc n)

nibble : ℕ → ℕ
nibble d = if ltb d 10 then b'0' + d else b'a' + (d - 10)

-- `\uXXXX`, with lower-case digits.
unicode_escape : ℕ → Text
unfolding nibble
unicode_escape c =
    b'\\'
    ∷ b'u'
    ∷ nibble (c / 4096 % 16)
    ∷ nibble (c / 256 % 16)
    ∷ nibble (c / 16 % 16)
    ∷ nibble (c % 16)
    ∷ []

-- The escapes that both modes of `json.dumps` share; `none` is any other character.
short_escape : ℕ → Option Text
unfolding unicode_escape
short_escape c =
    if c == b'"'
    then some (b'\\' ∷ b'"' ∷ [])
    else if c == b'\\'
    then some (b'\\' ∷ b'\\' ∷ [])
    else if c == 10
    then some (b'\\' ∷ b'n' ∷ [])
    else if c == 13
    then some (b'\\' ∷ b'r' ∷ [])
    else if c == 9
    then some (b'\\' ∷ b't' ∷ [])
    else if c == 12
    then some (b'\\' ∷ b'f' ∷ [])
    else if c == 8
    then some (b'\\' ∷ b'b' ∷ [])
    else if ltb c 32
    then some (unicode_escape c)
    else none

-- One character under `ensure_ascii=True`: beyond the BMP a surrogate pair is written.
ascii_escape : ℕ → Text
unfolding unicode_escape
ascii_escape c =
    if ltb c 127
    then c ∷ []
    else if ltb c 0x10000
    then unicode_escape c
    else unicode_escape (0xd800 + (c - 0x10000) / 1024)
      ++ unicode_escape (0xdc00 + (c - 0x10000) % 1024)

unfoldable pub escape_char : Bool → ℕ → Text
unfolding short_escape ascii_escape
escape_char ascii c = elim (short_escape c) [
  | some e ↦ e
  | none ↦ if ascii then ascii_escape c else c ∷ []
]

unfoldable pub escape : Bool → Text → Text
escape ascii [] = []
escape ascii (c ∷ s) = escape_char ascii c ++ escape ascii s

unfoldable pub quote : Bool → Text → Text
unfolding escape
quote ascii s = b'"' ∷ (escape ascii s ++ b'"' ∷ [])

-- `json.dumps(value, ensure_ascii=ascii, allow_nan=False, separators=(",", ":"))`; `none` stands
-- for its TypeError or ValueError.
unfoldable mutual
  unfolding quote int_text

  pub dumps : Bool → Value → Option Text
  dumps ascii null = some (codes "null")
  dumps ascii (bool true) = some (codes "true")
  dumps ascii (bool false) = some (codes "false")
  dumps ascii (int i) = some (int_text i)
  dumps ascii (float repr) = some repr
  dumps ascii not_finite = none
  dumps ascii (str s) = some (quote ascii s)
  dumps ascii (arr xs) = do t ← dumps_items ascii xs; some (b'[' ∷ (t ++ b']' ∷ []))
  dumps ascii (obj fs) = do t ← dumps_fields ascii fs; some (b'{' ∷ (t ++ b'}' ∷ []))
  dumps ascii (model v) = none
  dumps ascii other = none

  pub dumps_items : Bool → Items → Option Text
  dumps_items ascii nil = some []
  dumps_items ascii (cons x nil) = dumps ascii x
  dumps_items ascii (cons x (cons y ys)) = do
    t ← dumps ascii x
    r ← dumps_items ascii (cons y ys)
    some (t ++ b',' ∷ r)

  pub dumps_fields : Bool → Fields → Option Text
  dumps_fields ascii end = some []
  dumps_fields ascii (field k v end) = do t ← dumps ascii v; some (quote ascii k ++ b':' ∷ t)
  dumps_fields ascii (field k v (field j w fs)) = do
    t ← dumps ascii v
    r ← dumps_fields ascii (field j w fs)
    some ((quote ascii k ++ b':' ∷ t) ++ b',' ∷ r)

unfoldable pub is_surrogate : ℕ → Bool
is_surrogate c = leb 0xd800 c && ltb c 0xe000

utf8_char : ℕ → Bytes
utf8_char c =
    if ltb c 0x80
    then c ∷ []
    else if ltb c 0x800
    then (0xc0 + c / 64) ∷ (0x80 + c % 64) ∷ []
    else if ltb c 0x10000
    then (0xe0 + c / 4096) ∷ (0x80 + c / 64 % 64) ∷ (0x80 + c % 64) ∷ []
    else (0xf0 + c / 262144) ∷ (0x80 + c / 4096 % 64) ∷ (0x80 + c / 64 % 64) ∷ (0x80 + c % 64) ∷ []

-- `text.encode("utf-8")`; `none` is the UnicodeEncodeError of a lone surrogate.
unfoldable pub utf8 : Text → Option Bytes
unfolding utf8_char is_surrogate
utf8 [] = some []
utf8 (c ∷ s) =
    let rest = utf8 s in if is_surrogate c then none else rest >>= λ bs. some (utf8_char c ++ bs)

or_ascii : Value → Option Bytes → Option Bytes
unfolding dumps
or_ascii v (some bs) = some bs
or_ascii v none = dumps true v

unfoldable pub dump_json : Value → Option Bytes
unfolding dumps utf8 or_ascii
dump_json v = do t ← dumps false v; or_ascii v (utf8 t)
