-- ===== src/Bridge/Effects/Keeps.antt =====
-- Invariants of the service's actions, one rule for each way to build an action.
use stavrobot_imcp_plugin.Prelude.{ℕ, Bool, true, false, Option, none, some, arith, if◌then◌else◌}
use stavrobot_imcp_plugin.Bridge.Effects.{
  World, M, Outcome, ok, raised, Exc, Answer, pure, raise, lift, gets, sleep, ◌>>=◌, continue,
  catch, recover, either, try_else, await_bounded, bounded_phase_timeout, remaining_of,
}

-- `m` keeps `P`, whether it returns or raises.
pub record Keeps {A : Type 0} (P : World → Type 0) (m : M A) : Type 0 where
  pub at : (w : World) → P w → P (m w).1

module _ {A : Type 0} {P : World → Type 0} where
  pub Keeps-pure : (a : A) → Keeps P (pure a)
  Keeps-pure a = record { at = λ w h. h }

  pub Keeps-raise : (e : Exc) → Keeps P (raise {A = A} e)
  Keeps-raise e = record { at = λ w h. h }

  pub Keeps-lift : (r : Outcome A) → Keeps P (lift r)
  unfolding lift
  Keeps-lift r = record { at = λ w h. h }

  pub Keeps-gets : (f : World → A) → Keeps P (gets f)
  unfolding gets
  Keeps-gets f = record { at = λ w h. h }

  pub Keeps-if : (b : Bool) (m n : M A) → Keeps P m → Keeps P n → Keeps P (if b then m else n)
  Keeps-if true m n km kn = km
  Keeps-if false m n km kn = kn

  Keeps-recover :
      (r : Outcome A) (f : Exc → M A) → ((e : Exc) → Keeps P (f e)) → Keeps P (recover r f)
  unfolding recover
  Keeps-recover (ok a) f kf = record { at = λ w h. h }
  Keeps-recover (raised e) f kf = record { at = λ w h. (kf e).at w h }

  pub Keeps-catch :
      (m : M A) (f : Exc → M A) → Keeps P m → ((e : Exc) → Keeps P (f e)) → Keeps P (catch m f)
  unfolding catch
  Keeps-catch m f km kf = record {
    at = λ w h. let (r, w') = m w in (Keeps-recover r f kf).at w' (km.at w h);
  }

module _ {A B : Type 0} {P : World → Type 0} where
  Keeps-continue :
      (r : Outcome A) (f : A → M B) → ((a : A) → Keeps P (f a)) → Keeps P (continue r f)
  unfolding continue
  Keeps-continue (ok a) f kf = record { at = λ w h. (kf a).at w h }
  Keeps-continue (raised e) f kf = record { at = λ w h. h }

  pub Keeps-bind :
      (m : M A) (f : A → M B) → Keeps P m → ((a : A) → Keeps P (f a)) → Keeps P (m >>= f)
  unfolding ◌>>=◌
  Keeps-bind m f km kf = record {
    at = λ w h. let (r, w') = m w in (Keeps-continue r f kf).at w' (km.at w h);
  }

module _ {A B : Type 0} {P : World → Type 0} where
  Keeps-either :
      (r : Outcome A) (f : Exc → M B) (k : A → M B)
      → ((e : Exc) → Keeps P (f e))
      → ((a : A) → Keeps P (k a))
      → Keeps P (either r f k)
  unfolding either
  Keeps-either (ok a) f k kf kk = record { at = λ w h. (kk a).at w h }
  Keeps-either (raised e) f k kf kk = record { at = λ w h. (kf e).at w h }

  pub Keeps-try_else :
      (m : M A) (f : Exc → M B) (k : A → M B)
      → Keeps P m
      → ((e : Exc) → Keeps P (f e))
      → ((a : A) → Keeps P (k a))
      → Keeps P (try_else m f k)
  unfolding try_else
  Keeps-try_else m f k km kf kk = record {
    at = λ w h. let (r, w') = m w in (Keeps-either r f k kf kk).at w' (km.at w h);
  }

pub ruleset keeps_rules = (
  Keeps-pure, Keeps-raise, Keeps-lift, Keeps-gets, Keeps-if, Keeps-catch, Keeps-bind,
  Keeps-try_else,
)

-- A property that the passing of time leaves alone.
module _ {A : Type 0} {P : World → Type 0} (ages : (n : ℕ) → Keeps P (sleep n)) where
  pub await_bounded-Keeps :
      (answer : Answer A) (timeout : ℕ) → Keeps P (await_bounded answer timeout)
  unfolding await_bounded sleep
  await_bounded-Keeps answer timeout = record {
    at = λ w h. ground (arith, (ages answer.took).at w h, (ages timeout).at w h);
  }

pub bounded_phase_timeout-Keeps :
    {P : World → Type 0} (configured : ℕ) (deadline : Option ℕ)
    → Keeps P (bounded_phase_timeout configured deadline)
unfolding bounded_phase_timeout remaining_of
bounded_phase_timeout-Keeps configured none = search keeps_rules
bounded_phase_timeout-Keeps configured (some d) = search keeps_rules
