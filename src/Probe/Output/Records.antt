-- ===== src/Probe/Output/Records.antt =====
-- The field output of `lsof -F ftDin` as it is written for one process, and what is read back
-- (scripts/probe_imcp.py).
use stavrobot_imcp_plugin.Prelude.{
  Text, codes, text_eq, Option, none, some, List, [], ◌∷◌, ◌≡◌, refl, ◌∙◌, ap, inl, inr, Bool-cases,
  if◌then◌else◌,
}
use stavrobot_imcp_plugin.Probe.Output.{
  Record, RawIdentity, is_executable, kept_record, read_records, first_executable, raw_of,
  raw_identity,
}

-- An open file: its descriptor, type, device, inode and name.
pub record OpenFile : Type 0 where
  pub descriptor : Text
  pub kind : Text
  pub raw : RawIdentity
  pub open raw use *

-- The lines that `lsof` writes for files.
abbrev pub file_lines : List OpenFile → List Text
file_lines [] = []
file_lines (d ∷ ds) =
    (b'f' ∷ d.descriptor)
    ∷ (b't' ∷ d.kind)
    ∷ (b'D' ∷ d.raw_device)
    ∷ (b'i' ∷ d.raw_inode)
    ∷ (b'n' ∷ d.raw_path)
    ∷ file_lines ds

-- The first file of the process's text.
abbrev pub first_text : List OpenFile → Option RawIdentity
first_text [] = none
first_text (d ∷ ds) = if text_eq d.descriptor (codes "txt") then some d.raw else first_text ds

record_of : OpenFile → Record
record_of d =
    (b'f', d.descriptor)
    ∷ (b't', d.kind)
    ∷ (b'D', d.raw_device)
    ∷ (b'i', d.raw_inode)
    ∷ (b'n', d.raw_path)
    ∷ []

records_of : List OpenFile → List Record
records_of [] = []
records_of (d ∷ ds) = kept_record (record_of d) (records_of ds)

read_records-file_lines :
    (ds : List OpenFile) (r : Record)
    → read_records (file_lines ds) r ≡ kept_record r (records_of ds)
unfolding read_records records_of record_of
read_records-file_lines [] r = refl
read_records-file_lines (d ∷ ds) r = ap (kept_record r) (read_records-file_lines ds (record_of d))

first_executable-kept :
    (r : Record) (rs : List Record)
    → raw_of (first_executable (kept_record r rs))
      ≡ (if is_executable r then raw_of (some r) else raw_of (first_executable rs))
unfolding kept_record first_executable raw_of
first_executable-kept r rs = elim (Bool-cases (is_executable r)) [
  | inl text ↦ rw (text, kept_record) (rw (text, first_executable) refl)
  | inr other ↦ rw (other, kept_record) refl
]

is_executable-record_of :
    (d : OpenFile) → is_executable (record_of d) ≡ text_eq d.descriptor (codes "txt")
unfolding is_executable record_of
is_executable-record_of d = refl

raw_of-record_of : (d : OpenFile) → raw_of (some (record_of d)) ≡ some d.raw
unfolding raw_of record_of
raw_of-record_of d = refl

raw_of-records_of : (ds : List OpenFile) → raw_of (first_executable (records_of ds)) ≡ first_text ds
unfolding records_of
raw_of-records_of [] = unfold raw_of in unfold first_executable in refl
raw_of-records_of (d ∷ ds) =
    first_executable-kept (record_of d) (records_of ds)
    ∙ rw (is_executable-record_of d, raw_of-record_of d, raw_of-records_of ds) refl

header_skipped :
    (pid : Text) (ds : List OpenFile)
    → raw_of (first_executable (kept_record ((b'p', pid) ∷ []) (records_of ds))) ≡ first_text ds
unfolding kept_record is_executable records_of
header_skipped pid ds = raw_of-records_of ds

-- Of the output that lsof writes for a process and its open files, the probe reads the path, the device
-- and the inode of the first file whose descriptor is `txt`, and nothing if there is none.
pub raw_identity-file_lines :
    (pid : Text) (ds : List OpenFile) → raw_identity ((b'p' ∷ pid) ∷ file_lines ds) ≡ first_text ds
unfolding raw_identity read_records
raw_identity-file_lines pid ds =
    rw (read_records-file_lines ds ((b'p', pid) ∷ [])) (header_skipped pid ds)
