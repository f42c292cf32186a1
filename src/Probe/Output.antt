-- ===== src/Probe/Output.antt =====
-- What the probe reads from `pgrep` and `lsof` (scripts/probe_imcp.py): `_running_imcp_pids`, and the
-- field output of `_read_running_executable`.
pub mod Pids
pub mod Records
use stavrobot_imcp_plugin.Prelude.{
  ℕ, zero, suc, Text, codes, text_eq, Bool, true, false, ◌&&◌, ◌||◌, Option, none, some, List, [],
  ◌∷◌, ◌++◌, leb, ◌==◌, if◌then◌else◌,
}
use stavrobot_imcp_plugin.Json.{ℤ, pos, negsuc}
use stavrobot_imcp_plugin.Probe.{Completed, int_eq, stripped}

-- The characters at which `str.splitlines` breaks.
unfoldable pub is_line_break : ℕ → Bool
is_line_break c =
    (leb 10 c && leb c 13)
    || ((leb 28 c && leb c 30) || (c == 0x85 || (c == 0x2028 || c == 0x2029)))

first_line : ℕ → List Text → List Text
first_line c [] = (c ∷ []) ∷ []
first_line c (l ∷ ls) = (c ∷ l) ∷ ls

-- `s.splitlines()`; a line feed after a carriage return belongs to its break.
unfoldable pub lines_after : Bool → Text → List Text
unfolding is_line_break first_line
lines_after returned [] = []
lines_after returned (c ∷ s) =
    let rest = lines_after (c == 13) s in
    if is_line_break c then (if returned && c == 10 then rest else [] ∷ rest) else first_line c rest

unfoldable pub split_lines : Text → List Text
unfolding lines_after
split_lines s = lines_after false s

unfoldable pub mem_nat : ℕ → List ℕ → Bool
mem_nat n [] = false
mem_nat n (k ∷ ks) = n == k || mem_nat n ks

-- `dict.fromkeys(pids)`, after those that were seen.
unfoldable pub unique_after : List ℕ → List ℕ → List ℕ
unfolding mem_nat
unique_after seen [] = []
unique_after seen (n ∷ ns) =
    let rest = unique_after (if mem_nat n seen then seen else n ∷ seen) ns in
    if mem_nat n seen then rest else n ∷ rest

positive : Option ℤ → Option ℕ
positive (some (pos (suc n))) = some (suc n)
positive _ = none

unfoldable pub add_pid : Option ℕ → Option (List ℕ) → Option (List ℕ)
add_pid (some n) (some ns) = some (n ∷ ns)
add_pid (some n) none = none
add_pid none ns = none

-- `is_space` is `str.isspace` on a character, and `int10` is `int(value, 10)`.
module _ (is_space : ℕ → Bool) (int10 : Text → Option ℤ) where
  -- The loop over the lines; `none` is the RuntimeError.
  unfoldable pub read_pids : List Text → Option (List ℕ)
  unfolding stripped positive add_pid
  read_pids [] = some []
  read_pids (line ∷ lines) = elim (stripped is_space line) [
    | [] ↦ read_pids lines
    | c ∷ s ↦ add_pid (positive (int10 (c ∷ s))) (read_pids lines)
  ]

  found_pids : Option (List ℕ) → Option (List ℕ)
  unfolding unique_after
  found_pids none = none
  found_pids (some []) = none
  found_pids (some (n ∷ ns)) = some (unique_after [] (n ∷ ns))

  -- `pgrep` exits with 1 where no process matches.
  unfoldable pub pids_of : Option Completed → Option (List ℕ)
  unfolding found_pids read_pids split_lines int_eq
  pids_of none = none
  pids_of (some result) =
      if int_eq result.returncode (pos 1)
      then some []
      else if int_eq result.returncode (pos 0)
      then found_pids (read_pids (split_lines result.stdout))
      else none

-- A record of the field output: what stands after each field's letter.
abbrev pub Record : Type 0
Record = List (ℕ × Text)

unfoldable pub field_of : ℕ → Record → Option Text
field_of c [] = none
field_of c ((d, v) ∷ fs) = if c == d then some v else field_of c fs

-- `record[field] = value`.
unfoldable pub set_field : ℕ → Text → Record → Record
set_field c v [] = (c, v) ∷ []
set_field c v ((d, u) ∷ fs) = if c == d then (d, v) ∷ fs else (d, u) ∷ set_field c v fs

is_text : Option Text → Bool
is_text none = false
is_text (some v) = text_eq v (codes "txt")

-- `record.get("f") == "txt"`.
unfoldable pub is_executable : Record → Bool
unfolding is_text field_of
is_executable r = is_text (field_of b'f' r)

-- `records.append(record)` under its test.
unfoldable pub kept_record : Record → List Record → List Record
kept_record r records = if is_executable r then r ∷ records else records

-- The loop over the lines, with the record that is being read, and the append after it.
unfoldable pub read_records : List Text → Record → List Record
unfolding kept_record set_field
read_records [] r = kept_record r []
read_records ([] ∷ lines) r = read_records lines r
read_records ((c ∷ value) ∷ lines) r = elim (c == b'f') [
  | true ↦ kept_record r (read_records lines ((c, value) ∷ []))
  | false ↦ read_records lines (set_field c value r)
]

first_executable : List Record → Option Record
unfolding is_executable
first_executable [] = none
first_executable (r ∷ rs) = if is_executable r then some r else first_executable rs

-- `raw_path`, `raw_device` and `raw_inode` of the first executable record.
pub record RawIdentity : Type 0 where
  pub raw_path : Text
  pub raw_device : Text
  pub raw_inode : Text

raw_fields : Option Text → Option Text → Option Text → Option RawIdentity
raw_fields (some n) (some d) (some i) =
    some (record { raw_path = n; raw_device = d; raw_inode = i })
raw_fields (some n) (some d) none = none
raw_fields (some n) none i = none
raw_fields none d i = none

raw_of : Option Record → Option RawIdentity
unfolding raw_fields field_of
raw_of none = none
raw_of (some r) = raw_fields (field_of b'n' r) (field_of b'D' r) (field_of b'i' r)

unfoldable pub raw_identity : List Text → Option RawIdentity
unfolding read_records first_executable raw_of
raw_identity lines = raw_of (first_executable (read_records lines []))
