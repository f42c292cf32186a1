-- ===== src/Bridge/Effects/Triples.antt =====
-- Pre- and postconditions of the service's actions: what holds of the outcome and the next world.
use stavrobot_imcp_plugin.Prelude.{ℕ, ◌+◌, Option, none, some, leb, Bool-cases, inl, inr}
use stavrobot_imcp_plugin.Bridge.Effects.{
  World, M, Outcome, ok, raised, Exc, timeout_error, Answer, ◌>>=◌, continue, catch, recover,
  either, try_else, await_bounded, bounded_phase_timeout, remaining_of,
}

abbrev pub Post : Type 0 → Type 1
Post A = Outcome A → World → Type 0

-- After `m` from a world with `P`, `Q` holds of its outcome and the next world.
pub record Triple {A : Type 0} (P : World → Type 0) (m : M A) (Q : Post A) : Type 0 where
  pub at : (w : World) → P w → Q (m w).0 (m w).1

module _ {A B : Type 0} where
  continue_lem :
      (Q : Post A) (S : Post B) (f : A → M B)
      → ((a : A) → Triple (Q (ok a)) (f a) S)
      → ((e : Exc) (w : World) → Q (raised e) w → S (raised e) w)
      → (r : Outcome A) (w : World) → Q r w
      → S (continue r f w).0 (continue r f w).1
  unfolding continue
  continue_lem Q S f kf ke (ok a) w h = (kf a).at w h
  continue_lem Q S f kf ke (raised e) w h = ke e w h

  pub Triple-bind :
      {P : World → Type 0} (Q : Post A) (S : Post B) (m : M A) (f : A → M B)
      → Triple P m Q
      → ((a : A) → Triple (Q (ok a)) (f a) S)
      → ((e : Exc) (w : World) → Q (raised e) w → S (raised e) w)
      → Triple P (m >>= f) S
  unfolding ◌>>=◌
  Triple-bind Q S m f km kf ke = record {
    at = λ w h. let (r, w') = m w in continue_lem Q S f kf ke r w' (km.at w h);
  }

  either_lem :
      (Q : Post A) (S : Post B) (f : Exc → M B) (k : A → M B)
      → ((e : Exc) → Triple (Q (raised e)) (f e) S)
      → ((a : A) → Triple (Q (ok a)) (k a) S)
      → (r : Outcome A) (w : World) → Q r w
      → S (either r f k w).0 (either r f k w).1
  unfolding either
  either_lem Q S f k kf kk (ok a) w h = (kk a).at w h
  either_lem Q S f k kf kk (raised e) w h = (kf e).at w h

  pub Triple-try_else :
      {P : World → Type 0} (Q : Post A) (S : Post B) (m : M A) (f : Exc → M B) (k : A → M B)
      → Triple P m Q
      → ((e : Exc) → Triple (Q (raised e)) (f e) S)
      → ((a : A) → Triple (Q (ok a)) (k a) S)
      → Triple P (try_else m f k) S
  unfolding try_else
  Triple-try_else Q S m f k km kf kk = record {
    at = λ w h. let (r, w') = m w in either_lem Q S f k kf kk r w' (km.at w h);
  }

module _ {A : Type 0} where
  recover_lem :
      (Q S : Post A) (f : Exc → M A)
      → ((e : Exc) → Triple (Q (raised e)) (f e) S)
      → ((a : A) (w : World) → Q (ok a) w → S (ok a) w)
      → (r : Outcome A) (w : World) → Q r w
      → S (recover r f w).0 (recover r f w).1
  unfolding recover
  recover_lem Q S f kf ka (ok a) w h = ka a w h
  recover_lem Q S f kf ka (raised e) w h = (kf e).at w h

  pub Triple-catch :
      {P : World → Type 0} (Q S : Post A) (m : M A) (f : Exc → M A)
      → Triple P m Q
      → ((e : Exc) → Triple (Q (raised e)) (f e) S)
      → ((a : A) (w : World) → Q (ok a) w → S (ok a) w)
      → Triple P (catch m f) S
  unfolding catch
  Triple-catch Q S m f km kf ka = record {
    at = λ w h. let (r, w') = m w in recover_lem Q S f kf ka r w' (km.at w h);
  }

  -- A bounded wait only lets time pass.
  pub Triple-await_bounded :
      {P : World → Type 0} (S : Post A) (answer : Answer A) (timeout : ℕ)
      → ((r : Outcome A) (n : ℕ) (w : World) → P w → S r (record w { clock = w.clock + n }))
      → Triple P (await_bounded answer timeout) S
  unfolding await_bounded
  Triple-await_bounded S answer timeout k = record {
    at = λ w h. elim (Bool-cases (leb answer.took timeout)) [
      | inl e ↦ rw e (k answer.result answer.took w h)
      | inr e ↦ rw e (k (raised timeout_error) timeout w h)
    ];
  }

  pub Triple-weaken :
      {P : World → Type 0} (Q S : Post A) (m : M A)
      → Triple P m Q
      → ((r : Outcome A) (w : World) → Q r w → S r w)
      → Triple P m S
  Triple-weaken Q S m t k = record { at = λ w h. k (m w).0 (m w).1 (t.at w h) }

-- `_bounded_phase_timeout` reads the clock.
pub Triple-bounded_phase_timeout :
    {P : World → Type 0} (configured : ℕ) (deadline : Option ℕ)
    → Triple P (bounded_phase_timeout configured deadline) (λ r w. P w)
unfolding bounded_phase_timeout remaining_of
Triple-bounded_phase_timeout configured none = record { at = λ w h. h }
Triple-bounded_phase_timeout configured (some d) = record {
  at = λ w h. elim (Bool-cases (leb d w.clock)) [ inl e ↦ rw e h | inr e ↦ rw e h ];
}
