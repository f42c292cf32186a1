-- ===== src/Runtime/Lifecycle.antt =====
-- The life cycle that the runtime promises, whatever its threads do (bridge/server.py).
use stavrobot_imcp_plugin.Prelude.{
  ℕ, suc, Bool, true, false, not, ◌||◌, ◌&&◌, some, ◌≡◌, ◌≢◌, ◌⊎◌, inl, inr, refl, arith,
  Bool-cases, if◌then◌else◌, ap,
}
use stavrobot_imcp_plugin.Runtime.{
  Worker, unstarted, booting, set_up, running, draining, dead, Closer, closing_unstarted,
  closing_started, inside, shutting, joining, closer_done, Runtime, Event, start_call, run_call,
  close_call, setup, runs, stops, breaks, finishes, closes_unstarted, closes_inside, shuts_inside,
  shuts_down, stops_loop, joins, is_alive, is_running, start_section, run_section, close_section,
  worker_step, closer_step, step, Reach,
}
use stavrobot_imcp_plugin.Runtime.Phases.{AtWorker, AtCloser, OfWorker, pick, moved, guarded}
use stavrobot_imcp_plugin.Runtime.Sound.{Reach-Inv}

pub data Stage : Type 0 where
  fresh in_use shut : Stage

-- What a user of the runtime can tell: its stage, how many requests the loop got, and how often the
-- service was shut down.
pub record Life : Type 0 where
  pub stage : Stage
  pub requests : ℕ
  pub ends : ℕ

-- The life cycle: it opens once, takes requests only while it is open, shuts for good, and ends the
-- service at most once, after that.
pub data LifeStep : Life → Life → Type 0 where
  opens :
      {n k : ℕ}
      → LifeStep
          (record { stage = fresh; requests = n; ends = k })
          (record { stage = in_use; requests = n; ends = k })
  takes :
      {n k : ℕ}
      → LifeStep
          (record { stage = in_use; requests = n; ends = k })
          (record { stage = in_use; requests = suc n; ends = k })
  shuts :
      {n k : ℕ} (stage : Stage)
      → stage ≢ shut
      → LifeStep
          (record { stage = stage; requests = n; ends = k })
          (record { stage = shut; requests = n; ends = k })
  ends_service :
      {n : ℕ}
      → LifeStep
          (record { stage = shut; requests = n; ends = 0 })
          (record { stage = shut; requests = n; ends = 1 })

abbrev pub life_of : Runtime → Life
life_of s = record {
  stage = if s.closed then shut else if s.started then in_use else fresh;
  requests = s.accepted;
  ends = s.shutdowns;
}

abbrev pub Refines : Runtime → Runtime → Type 0
Refines s t = (life_of t ≡ life_of s) ⊎ LifeStep (life_of s) (life_of t)

-- A runtime that is not closed, with its stage.
life_open :
    (s : Runtime)
    → s.closed ≡ false
    → s.started ≡ true
    → life_of s ≡ record { stage = in_use; requests = s.accepted; ends = s.shutdowns }
life_open s c o = rw c (rw o refl)

life_fresh :
    (s : Runtime)
    → s.closed ≡ false
    → s.started ≡ false
    → life_of s ≡ record { stage = fresh; requests = s.accepted; ends = s.shutdowns }
life_fresh s c o = rw c (rw o refl)

life_shut :
    (s : Runtime)
    → s.closed ≡ true
    → life_of s ≡ record { stage = shut; requests = s.accepted; ends = s.shutdowns }
life_shut s c = rw c refl

-- Closing an open runtime.
closing_Refines :
    (s t : Runtime)
    → s.closed ≡ false
    → t.closed ≡ true
    → t.accepted ≡ s.accepted
    → t.shutdowns ≡ s.shutdowns
    → Refines s t
closing_Refines s t c d a k = elim (Bool-cases s.started) [
  | inl on ↦ inr (rw (life_open s c on, life_shut t d, a, k) (shuts in_use (λ e. cc)))
  | inr off ↦ inr (rw (life_fresh s c off, life_shut t d, a, k) (shuts fresh (λ e. cc)))
]

start_section-Refines : (b : Bool) (s : Runtime) → Refines s (start_section b s)
unfolding start_section
start_section-Refines b s =
    pick (Refines s) (s.closed || s.started) _ _ (λ _. inl refl)
      λ e. first b s (ground arith) (ground arith)
  where
    first :
        (b : Bool) (s : Runtime)
        → s.closed ≡ false
        → s.started ≡ false
        → Refines s (
            if b
            then record s { started = true; worker = booting; starts = suc s.starts }
            else record s {
              started = true;
              closed = true;
              loop_closed = true;
              closed_event = true;
            })
    first true s c o = inr (
        rw
          (
            life_fresh s c o,
            life_open (record s { started = true; worker = booting; starts = suc s.starts }) c refl,
          )
          opens)
    first false s c o =
        closing_Refines s
          (record s { started = true; closed = true; loop_closed = true; closed_event = true }) c
          refl refl refl

-- A thread that is alive was started.
alive_started : (p : Worker) (s : Runtime) → AtWorker p s → is_alive p ≡ true → s.started ≡ true
unfolding is_alive
alive_started unstarted s h e = cc
alive_started booting s (_, _, _, _, on) e = on
alive_started set_up s (_, _, _, _, on) e = on
alive_started running s (_, _, _, _, on) e = on
alive_started draining s (_, _, _, _, on) e = on
alive_started dead s (_, _, _, _, on) e = on

run_section-Refines : (b : Bool) (s : Runtime) → OfWorker s → Refines s (run_section b s)
unfolding run_section
run_section-Refines b s h =
    pick (Refines s) (s.closed || (s.loop_closed || not (is_alive s.worker))) _ _ (λ _. inl refl)
      λ e.
        pick (Refines s) b _ _
          (λ _. accepts (ground arith) (alive_started s.worker s h (ground arith))) (λ _. inl refl)
  where
    accepts :
        s.closed ≡ false → s.started ≡ true → Refines s (record s { accepted = suc s.accepted })
    accepts c o =
        inr (rw (life_open s c o, life_open (record s { accepted = suc s.accepted }) c o) takes)

close_section-Refines : (s : Runtime) → Refines s (close_section s)
unfolding close_section
close_section-Refines s =
    pick (Refines s) s.closed _ _ (λ _. inl refl)
      λ e.
        closing_Refines s
          (record s {
            closed = true;
            closer = if s.started then closing_started else closing_unstarted;
          })
          e refl refl refl

worker_step-same :
    (e : Event) (p : Worker) (s t : Runtime) → worker_step e p s ≡ some t → life_of t ≡ life_of s
unfolding worker_step
worker_step-same (setup true) booting s t h = moved (λ x. life_of x ≡ life_of s) _ t h refl
worker_step-same (setup false) booting s t h = moved (λ x. life_of x ≡ life_of s) _ t h refl
worker_step-same runs set_up s t h = moved (λ x. life_of x ≡ life_of s) _ t h refl
worker_step-same stops running s t h =
    guarded (λ x. life_of x ≡ life_of s) s.stopping _ t h (λ _. refl)
worker_step-same breaks running s t h = moved (λ x. life_of x ≡ life_of s) _ t h refl
worker_step-same finishes draining s t h = moved (λ x. life_of x ≡ life_of s) _ t h refl
worker_step-same _ _ s t h = cc

-- The one shutdown of a runtime that is closed.
shutdown_Refines :
    (b : Bool) (s t : Runtime)
    → s.closed ≡ true
    → t.closed ≡ true
    → t.accepted ≡ s.accepted
    → s.shutdowns ≡ 0
    → t.shutdowns ≡ (if b then 0 else 1)
    → Refines s t
shutdown_Refines true s t c d a z k = inl (rw (life_shut s c, life_shut t d, a, z, k) refl)
shutdown_Refines false s t c d a z k = inr (rw (life_shut s c, life_shut t d, a, z, k) ends_service)

closer_step-Refines :
    (e : Event) (c : Closer) (s t : Runtime)
    → AtCloser c s
    → closer_step e c s ≡ some t
    → Refines s t
unfolding closer_step
closer_step-Refines closes_unstarted closing_unstarted s t h e = moved (Refines s) _ t e (inl refl)
closer_step-Refines closes_inside closing_started s t h e =
    guarded (Refines s) (s.ready && is_running s.worker) _ t e (λ _. inl refl)
closer_step-Refines shuts_inside inside s t (z, c) e =
    guarded (Refines s) (is_running s.worker) _ t e (λ _.
      shutdown_Refines false s
        (record s { closer = closer_done; stopping = true; shutdowns = suc s.shutdowns }) c c refl z
        (ap suc z))
closer_step-Refines shuts_down closing_started s t (z, c, _) e =
    guarded (Refines s) s.ready _ t e (λ _.
      shutdown_Refines s.loop_closed s
        (record s {
          closer = shutting;
          shutdowns = if s.loop_closed then s.shutdowns else suc s.shutdowns;
        })
        c c refl z (rw z refl))
closer_step-Refines stops_loop shutting s t h e = moved (Refines s) _ t e (inl refl)
closer_step-Refines joins joining s t h e = moved (Refines s) _ t e (inl refl)
closer_step-Refines _ _ s t h e = cc

-- Seen by its users, the runtime follows its life cycle: from every state that it reaches, each step
-- of any thread changes nothing for them or is one step of the life cycle, which opens once, takes
-- requests only while it is in use, shuts for good, and shuts the service down at most once and only
-- after that.
pub step-Refines : (e : Event) {s t : Runtime} → Reach s → step e s ≡ some t → Refines s t
unfolding step
step-Refines (start_call b) {s} {t} r e = moved (Refines s) _ t e (start_section-Refines b s)
step-Refines (run_call b) {s} {t} r e =
    moved (Refines s) _ t e (run_section-Refines b s (Reach-Inv r).0)
step-Refines close_call {s} {t} r e = moved (Refines s) _ t e (close_section-Refines s)
step-Refines (setup b) {s} {t} r e = inl (worker_step-same (setup b) s.worker s t e)
step-Refines runs {s} {t} r e = inl (worker_step-same runs s.worker s t e)
step-Refines stops {s} {t} r e = inl (worker_step-same stops s.worker s t e)
step-Refines breaks {s} {t} r e = inl (worker_step-same breaks s.worker s t e)
step-Refines finishes {s} {t} r e = inl (worker_step-same finishes s.worker s t e)
step-Refines closes_unstarted {s} {t} r e =
    closer_step-Refines closes_unstarted s.closer s t (Reach-Inv r).1 e
step-Refines closes_inside {s} {t} r e =
    closer_step-Refines closes_inside s.closer s t (Reach-Inv r).1 e
step-Refines shuts_inside {s} {t} r e =
    closer_step-Refines shuts_inside s.closer s t (Reach-Inv r).1 e
step-Refines shuts_down {s} {t} r e = closer_step-Refines shuts_down s.closer s t (Reach-Inv r).1 e
step-Refines stops_loop {s} {t} r e = closer_step-Refines stops_loop s.closer s t (Reach-Inv r).1 e
step-Refines joins {s} {t} r e = closer_step-Refines joins s.closer s t (Reach-Inv r).1 e
