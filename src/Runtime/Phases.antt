-- ===== src/Runtime/Phases.antt =====
-- What the fields of the runtime say at each point of its threads (bridge/server.py).
use mathlib.Core.Path.{subst}
use stavrobot_imcp_plugin.Prelude.{◌≤◌, Bool, true, false, none, some, ◌≡◌, refl, if◌then◌else◌}
use stavrobot_imcp_plugin.Runtime.{
  Worker, unstarted, booting, dead, Closer, nobody, closing_unstarted, closing_started, inside,
  shutting, joining, closer_done, Runtime,
}

-- What the fields say for a state of the thread.
abbrev pub AtWorker : Worker → Runtime → Type 0
AtWorker unstarted s =
    (s.starts ≡ 0)
    × (s.ready ≡ false)
    × (s.loop_closed ≡ s.closed_event)
    × ((s.started ≡ true) → (s.closed ≡ true) × (s.closed_event ≡ true))
    × ((s.loop_closed ≡ true) → s.closed ≡ true)
AtWorker booting s =
    (s.starts ≡ 1)
    × (s.ready ≡ false)
    × (s.loop_closed ≡ false)
    × (s.closed_event ≡ false)
    × (s.started ≡ true)
AtWorker dead s =
    (s.starts ≡ 1)
    × (s.ready ≡ true)
    × (s.loop_closed ≡ true)
    × (s.closed_event ≡ true)
    × (s.started ≡ true)
AtWorker _ s =
    (s.starts ≡ 1)
    × (s.ready ≡ true)
    × (s.loop_closed ≡ false)
    × (s.closed_event ≡ false)
    × (s.started ≡ true)

-- What they say for the thread that closes.
abbrev pub AtCloser : Closer → Runtime → Type 0
AtCloser nobody s = s.shutdowns ≡ 0
AtCloser closing_unstarted s = (s.shutdowns ≡ 0) × (s.closed ≡ true) × (s.started ≡ false)
AtCloser closing_started s = (s.shutdowns ≡ 0) × (s.closed ≡ true) × (s.started ≡ true)
AtCloser inside s = (s.shutdowns ≡ 0) × (s.closed ≡ true)
AtCloser shutting s = (s.shutdowns ≤ 1) × (s.closed ≡ true) × (s.started ≡ true) × (s.ready ≡ true)
AtCloser joining s = (s.shutdowns ≤ 1) × (s.closed ≡ true) × (s.started ≡ true) × (s.ready ≡ true)
AtCloser closer_done s = (s.shutdowns ≤ 1) × (s.closed ≡ true)

abbrev pub OfWorker : Runtime → Type 0
OfWorker s = AtWorker s.worker s

abbrev pub OfCloser : Runtime → Type 0
OfCloser s = AtCloser s.closer s

pub pick :
    (P : Runtime → Type 0) (b : Bool) (x y : Runtime)
    → (b ≡ true → P x)
    → (b ≡ false → P y)
    → P (if b then x else y)
pick P true x y f g = f refl
pick P false x y f g = g refl

pub moved : (P : Runtime → Type 0) (x t : Runtime) → some x ≡ some t → P x → P t
moved P x t e h = let q : x ≡ t = cc in subst P q h

pub guarded :
    (P : Runtime → Type 0) (b : Bool) (x t : Runtime)
    → (if b then some x else none) ≡ some t
    → (b ≡ true → P x)
    → P t
guarded P true x t e h = moved P x t e (h refl)
guarded P false x t e h = cc
