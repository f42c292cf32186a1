-- ===== src/Client/Timer.antt =====
-- The caller's timer that `_http_deadline` puts back (_bridge.py).
use stavrobot_imcp_plugin.Prelude.{
  ℕ, suc, ◌+◌, ◌-◌, ◌*◌, ◌/◌, ◌≤◌, ◌<◌, some, ltb, ◌≡◌, refl, ◌⊎◌, arith, Bool-cases, true, false,
  inl, inr,
}
use stavrobot_imcp_plugin.Client.{restored_delay}

step : (o i : ℕ) → ((o / suc i) * suc i ≤ o) × (o < (o / suc i + 1) * suc i)
step o i = (omega arith, omega arith)

before : (a b : ℕ) → ltb a b ≡ true → a < b
before a b h = ground arith

passed : (a b : ℕ) → ltb a b ≡ false → b ≤ a
passed a b h = ground arith

later : (a b : ℕ) → ltb a b ≡ true → 1 ≤ b - a
later a b h = ground arith

meets : (a b : ℕ) → ltb a b ≡ true → a + (b - a) ≡ b
meets a b h = ground arith

next_after : (a d p : ℕ) → d ≤ a → a - d < p → 1 ≤ d + p - a
next_after a d p h k = omega arith

reaches : (a d p : ℕ) → d ≤ a → a - d < p → a + (d + p - a) ≡ d + p
reaches a d p h k = omega arith

split : (q i : ℕ) → (q + 1) * suc i ≡ q * suc i + suc i
split q i = omega arith

within_interval : (a d q i : ℕ) → d ≤ a → q * suc i ≤ a - d → d + (q + 1) * suc i - a ≤ suc i
within_interval a d q i h k = omega (arith, split q i)

-- For a periodic timer, at any time since it was taken over: it gets back a positive delay, to the
-- instant at which it would have fired next, one of its own instants and less than an interval away
-- once its first instant has passed.
pub restored_delay_lem :
    (elapsed delay i : ℕ)
    → (r : ℕ) × (restored_delay elapsed delay (suc i) ≡ some r)
      × (1 ≤ r)
      × (((elapsed < delay) × (elapsed + r ≡ delay))
          ⊎ ((delay ≤ elapsed) × (k : ℕ) × (elapsed + r ≡ delay + k * suc i) × (r ≤ suc i)))
unfolding restored_delay
restored_delay_lem elapsed delay i = elim (Bool-cases (ltb elapsed delay)) [
  | inl e ↦ (
    delay - elapsed,
    rw e refl,
    later elapsed delay e,
    inl (before elapsed delay e, meets elapsed delay e),
  )
  | inr e ↦
      let q : ℕ = (elapsed - delay) / suc i in
      let le : delay ≤ elapsed = passed elapsed delay e in
      let (low, high) = step (elapsed - delay) i in
      (
        delay + (q + 1) * suc i - elapsed,
        rw e refl,
        next_after elapsed delay _ le high,
        inr (le, q + 1, reaches elapsed delay _ le high, within_interval elapsed delay q i le low),
      )
]
