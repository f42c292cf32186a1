-- ===== src/Bridge/Effects/Deadlines.antt =====
-- What a deadline means for the waits that an operation begins (bridge/server.py).
use stavrobot_imcp_plugin.Prelude.{
  ℕ, ◌+◌, ◌-◌, ◌≤◌, ◌≡◌, ap, false, some, ◌∷◌, ◌++◌, All, arith, leb, min, Bool-cases, inl, inr,
}
use stavrobot_imcp_plugin.Bridge.Effects.{
  Outcome, ok, raised, Service, Event, made, awaited, opened, initialized, called, listed, closed,
  History, World, Answer, M, ◌>>=◌, gets, modify_service, emit, sleep, await_bounded,
  bounded_phase_timeout, remaining_of,
}
use stavrobot_imcp_plugin.Bridge.Effects.Keeps.{Keeps, await_bounded-Keeps}
use stavrobot_imcp_plugin.Bridge.Effects.Triples.{Triple, Triple-bind}

-- The wait that the event begins ends by `d`.
abbrev pub EndsBy : ℕ → Event → Type 0
EndsBy d (awaited now timeout) = now + timeout ≤ d
EndsBy d (opened _ now timeout) = now + timeout ≤ d
EndsBy d (initialized _ now timeout) = now + timeout ≤ d
EndsBy d (called _ _ _ now timeout) = now + timeout ≤ d
EndsBy d (listed _ _ now timeout) = now + timeout ≤ d
EndsBy d (made _) = Unit
EndsBy d (closed _) = Unit

module _ (d : ℕ) (past : History) where
  -- Since `past`, every wait that was begun ends by `d`.
  abbrev pub OnTime : World → Type 0
  OnTime w = (news : History) × (w.history ≡ news ++ past) × All (EndsBy d) news

  -- Besides, there is time for a wait of `timeout`.
  abbrev pub HasTime : ℕ → World → Type 0
  HasTime timeout w = OnTime w × (w.clock + timeout ≤ d)

  abbrev pub Granted : Outcome ℕ → World → Type 0
  Granted (ok timeout) w = HasTime timeout w
  Granted (raised e) w = OnTime w

  sooner : (c d now : ℕ) → leb d now ≡ false → now + min c (d - now) ≤ d
  sooner c d now h = ground arith

  pub bounded_phase_timeout-Granted :
      (configured : ℕ)
      → Triple OnTime (bounded_phase_timeout configured (some d)) (λ r w. Granted r w)
  unfolding bounded_phase_timeout remaining_of gets ◌>>=◌
  bounded_phase_timeout-Granted configured = record {
    at = λ w h. elim (Bool-cases (leb d w.clock)) [
      | inl e ↦ rw e h
      | inr e ↦ rw e (h, sooner configured d w.clock e)
    ];
  }

  -- What runs under the timeout that it is granted.
  pub OnTime-timed :
      {A : Type 0} (configured : ℕ) (f : ℕ → M A)
      → ((timeout : ℕ) → Triple (HasTime timeout) (f timeout) (λ r w. OnTime w))
      → Keeps OnTime (bounded_phase_timeout configured (some d) >>= f)
  OnTime-timed configured f k = record {
    at =
        (Triple-bind (λ r w. Granted r w) (λ r w. OnTime w) _ f
          (bounded_phase_timeout-Granted configured) k (λ e w h. h)).at;
  }

  -- The wait begins now.
  pub HasTime-stamp :
      {A : Type 0} (event : ℕ → ℕ → Event) (timeout : ℕ) (m : M A)
      → ((now : ℕ) → now + timeout ≤ d → EndsBy d (event now timeout))
      → Keeps OnTime m
      → Triple
          (HasTime timeout)
          (gets (λ w. w.clock) >>= λ now. emit (event now timeout) >>= λ _. m)
          (λ r w. OnTime w)
  unfolding ◌>>=◌ gets emit
  HasTime-stamp event timeout m by k = record {
    at = λ w h.
        k.at (record w { history = event w.clock timeout ∷ w.history })
          (
            event w.clock timeout ∷ h.0.0,
            ap (λ t. event w.clock timeout ∷ t) h.0.1,
            (by w.clock h.1, h.0.2),
          );
  }

  pub HasTime-modify :
      {A : Type 0} (f : Service → Service) (timeout : ℕ) (m : M A)
      → Triple (HasTime timeout) m (λ r w. OnTime w)
      → Triple (HasTime timeout) (modify_service f >>= λ _. m) (λ r w. OnTime w)
  unfolding ◌>>=◌ modify_service
  HasTime-modify f timeout m k = record { at = λ w h. k.at (record w { service = f w.service }) h }

  pub sleep-OnTime : (n : ℕ) → Keeps OnTime (sleep n)
  unfolding sleep
  sleep-OnTime n = record { at = λ w h. h }

  pub modify-OnTime : (f : Service → Service) → Keeps OnTime (modify_service f)
  unfolding modify_service
  modify-OnTime f = record { at = λ w h. h }

  pub closed-OnTime : (id : ℕ) → Keeps OnTime (emit (closed id))
  unfolding emit
  closed-OnTime id = record {
    at = λ w h. (closed id ∷ h.0, ap (λ t. closed id ∷ t) h.1, (tt, h.2));
  }

  pub made-OnTime : (id : ℕ) → Keeps OnTime (emit (made id))
  unfolding emit
  made-OnTime id = record { at = λ w h. (made id ∷ h.0, ap (λ t. made id ∷ t) h.1, (tt, h.2)) }

  pub await-OnTime :
      {A : Type 0} (answer : Answer A) (timeout : ℕ) → Keeps OnTime (await_bounded answer timeout)
  await-OnTime = await_bounded-Keeps sleep-OnTime
