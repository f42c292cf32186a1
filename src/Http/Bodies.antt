-- ===== src/Http/Bodies.antt =====
-- The request bodies that `_read_request` accepts (bridge/server.py).
use stavrobot_imcp_plugin.Prelude.{
  ℕ, ◌≤◌, Text, false, Option, none, some, length, ltb, ◌==◌, ◌≡◌, refl, arith, inl, inr,
  Bool-cases, ==_iff,
}
use stavrobot_imcp_plugin.Json.{
  ℤ, pos, negsuc, Value, null, bool, int, float, not_finite, str, arr, model, other, obj, Fields,
}
use stavrobot_imcp_plugin.Json.Dump.{Bytes}
use stavrobot_imcp_plugin.Http.{
  max_request_body_bytes, Ended, done, threw, Exchange, read_request, check_body, read_body,
  parse_body, with_length, length_required, is_set,
}

-- The body is complete, of the announced length and within the limit, and is a JSON object.
abbrev pub IsBodyOf : Exchange → Fields → Type 0
IsBodyOf ex request =
    (value : Text) × (raw : Bytes) × (ex.content_length ≡ some value)
    × (ex.parse_int value ≡ some (pos (length raw)))
    × (length raw ≤ max_request_body_bytes)
    × (ex.read (length raw) ≡ done raw)
    × (ex.json_loads raw ≡ some (obj request))

parse_body_lem :
    (v : Option Value) (request : Fields) → parse_body v ≡ done request → v ≡ some (obj request)
unfolding parse_body
parse_body_lem none request h = ground arith
parse_body_lem (some v) request h = elim v [
  | obj fs ↦ ground arith
  | null ↦ ground arith
  | bool b ↦ ground arith
  | int i ↦ ground arith
  | float t ↦ ground arith
  | not_finite ↦ ground arith
  | str t ↦ ground arith
  | arr xs ↦ ground arith
  | model m ↦ ground arith
  | other ↦ ground arith
]

check_body_lem :
    (ex : Exchange) (n : ℕ) (r : Ended Bytes) (request : Fields)
    → check_body ex n r ≡ done request
    → (raw : Bytes) × (r ≡ done raw) × (length raw ≡ n) × (ex.json_loads raw ≡ some (obj request))
unfolding check_body
check_body_lem ex n (threw e) request h = ground arith
check_body_lem ex n (done raw) request h = elim (Bool-cases (length raw == n)) [
  | inr e ↦ ground arith
  | inl e ↦ elim (Bool-cases (length raw == 0)) [
    | inl e' ↦ ground arith
    | inr e' ↦
        (raw, refl, (==_iff _ _).0 e, parse_body_lem (ex.json_loads raw) request (rw (e, e') at h))
  ]
]

not_longer : (n k : ℕ) → ltb k n ≡ false → n ≤ k
not_longer n k h = ground arith

read_body_lem :
    (ex : Exchange) (k : Option ℤ) (request : Fields)
    → read_body ex k ≡ done request
    → (raw : Bytes) × (k ≡ some (pos (length raw)))
      × (length raw ≤ max_request_body_bytes)
      × (ex.read (length raw) ≡ done raw)
      × (ex.json_loads raw ≡ some (obj request))
unfolding read_body
read_body_lem ex none request h = ground arith
read_body_lem ex (some (negsuc n)) request h = ground arith
read_body_lem ex (some (pos n)) request h = elim (Bool-cases (ltb max_request_body_bytes n)) [
  | inl e ↦ ground arith
  | inr e ↦
      let (raw, got, len, parsed) = check_body_lem ex n (ex.read n) request (rw e at h) in
      (
        raw,
        rw len refl,
        omega (arith, len, not_longer n max_request_body_bytes e),
        rw len got,
        parsed,
      )
]

with_length_lem :
    (ex : Exchange) (k : Option Text) (request : Fields)
    → ex.content_length ≡ k
    → with_length ex k ≡ done request
    → IsBodyOf ex request
unfolding with_length length_required
with_length_lem ex none request e h = ground arith
with_length_lem ex (some value) request e h =
    let (raw, parsed, le, got, loaded) = read_body_lem ex (ex.parse_int value) request h in
    (value, raw, e, parsed, le, got, loaded)

pub read_request_lem :
    (ex : Exchange) (request : Fields) → read_request ex ≡ done request → IsBodyOf ex request
unfolding read_request length_required
read_request_lem ex request h = elim (Bool-cases (is_set ex.transfer_encoding)) [
  | inl e ↦ ground arith
  | inr e ↦ with_length_lem ex ex.content_length request refl (rw e at h)
]
