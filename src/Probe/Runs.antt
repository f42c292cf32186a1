-- ===== src/Probe/Runs.antt =====
-- Inversion of a chain of questions that succeeded.
use stavrobot_imcp_plugin.Prelude.{Bool, true, false, Option, none, some, ◌≡◌, refl}
use stavrobot_imcp_plugin.Probe.{
  Result, ok, error, ProbeError, World, M, ◌>>=◌, continue, require, from_option,
}

module _ {A B : Type 0} where
  continue-ok :
      (r : Result A) (f : A → M B) (w : World) {b : B}
      → (continue r f w).0 ≡ ok b
      → (a : A) × (r ≡ ok a) × ((f a w).0 ≡ ok b)
  unfolding continue
  continue-ok (ok a) f w h = (a, refl, h)
  continue-ok (error e) f w h = cc

  pub bind-ok :
      (m : M A) (f : A → M B) (w : World) {b : B}
      → ((m >>= f) w).0 ≡ ok b
      → (a : A) × ((m w).0 ≡ ok a) × ((f a (m w).1).0 ≡ ok b)
  unfolding ◌>>=◌
  bind-ok m f w h = continue-ok (m w).0 f (m w).1 h

module _ {A B : Type 0} where
  -- What follows a step that returned `a`.
  pub bind-run :
      (m : M A) (f : A → M B) (w : World) (a : A) → (m w).0 ≡ ok a → (m >>= f) w ≡ f a (m w).1
  unfolding ◌>>=◌ continue
  bind-run m f w a h = rw (h, continue) refl

pub require-ok : (t : Bool) (e : ProbeError) (w : World) → (require t e w).0 ≡ ok tt → t ≡ true
require-ok true e w h = refl
require-ok false e w h = cc

pub from_option-ok :
    {A : Type 0} (e : ProbeError) (o : Option A) (w : World) {a : A}
    → (from_option e o w).0 ≡ ok a
    → o ≡ some a
from_option-ok e none w h = cc
from_option-ok e (some b) w h = cc
