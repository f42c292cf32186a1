-- ===== src/Runtime/Closing.antt =====
-- The steps keep what the fields say of the thread that closes (bridge/server.py).
use stavrobot_imcp_plugin.Prelude.{
  suc, Bool, true, false, not, ◌||◌, ◌&&◌, some, ◌≡◌, ◌⊎◌, inl, inr, refl, arith, Bool-cases,
  if◌then◌else◌,
}
use stavrobot_imcp_plugin.Runtime.{
  Worker, booting, set_up, running, draining, dead, Closer, nobody, closing_unstarted,
  closing_started, inside, shutting, joining, closer_done, Runtime, Event, setup, runs, stops,
  breaks, finishes, closes_unstarted, closes_inside, shuts_inside, shuts_down, stops_loop, joins,
  is_alive, is_running, start_section, run_section, close_section, worker_step, closer_step,
}
use stavrobot_imcp_plugin.Runtime.Phases.{AtCloser, OfCloser, pick, moved, guarded}

-- The part of the thread that closes.
pub start_section-closer : (b : Bool) (s : Runtime) → OfCloser s → OfCloser (start_section b s)
unfolding start_section
start_section-closer b s h =
    pick OfCloser (s.closed || s.started) _ _ (λ _. h)
      (λ e. open_closer b s.closer s refl h (ground arith))
  where
    open_closer :
        (b : Bool) (c : Closer) (s : Runtime)
        → s.closer ≡ c
        → AtCloser c s
        → s.closed ≡ false
        → OfCloser (
            if b
            then record s { started = true; worker = booting; starts = suc s.starts }
            else record s {
              started = true;
              closed = true;
              loop_closed = true;
              closed_event = true;
            })
    open_closer true nobody s q h e = rw q h
    open_closer false nobody s q h e = rw q h
    open_closer b closing_unstarted s q (_, h, _) e = absurd (cc)
    open_closer b closing_started s q (_, h, _) e = absurd (cc)
    open_closer b inside s q (_, h) e = absurd (cc)
    open_closer b shutting s q (_, h, _, _) e = absurd (cc)
    open_closer b joining s q (_, h, _, _) e = absurd (cc)
    open_closer b closer_done s q (_, h) e = absurd (cc)

accepting_closer :
    (c : Closer) (s : Runtime)
    → s.closer ≡ c
    → AtCloser c s
    → OfCloser (record s { accepted = suc s.accepted })
accepting_closer nobody s q h = rw q h
accepting_closer closing_unstarted s q h = rw q h
accepting_closer closing_started s q h = rw q h
accepting_closer inside s q h = rw q h
accepting_closer shutting s q h = rw q h
accepting_closer joining s q h = rw q h
accepting_closer closer_done s q h = rw q h

pub run_section-closer : (b : Bool) (s : Runtime) → OfCloser s → OfCloser (run_section b s)
unfolding run_section
run_section-closer b s h =
    pick OfCloser (s.closed || (s.loop_closed || not (is_alive s.worker))) _ _ (λ _. h)
      (λ _. pick OfCloser b _ _ (λ _. accepting_closer s.closer s refl h) (λ _. h))

pub close_section-closer : (s : Runtime) → OfCloser s → OfCloser (close_section s)
unfolding close_section
close_section-closer s h =
    pick OfCloser s.closed _ _ (λ _. h) (λ e. begins s.closer h e (Bool-cases s.started))
  where
    begins :
        (c : Closer)
        → AtCloser c s
        → s.closed ≡ false
        → ((s.started ≡ true) ⊎ (s.started ≡ false))
        → OfCloser (record s {
          closed = true;
          closer = if s.started then closing_started else closing_unstarted;
        })
    begins nobody h' e (inl on) = rw on (h', refl, refl)
    begins nobody h' e (inr off) = rw off (h', refl, refl)
    begins closing_unstarted (_, x, _) e y = absurd (cc)
    begins closing_started (_, x, _) e y = absurd (cc)
    begins inside (_, x) e y = absurd (cc)
    begins shutting (_, x, _, _) e y = absurd (cc)
    begins joining (_, x, _, _) e y = absurd (cc)
    begins closer_done (_, x) e y = absurd (cc)

-- The thread only ever sets `_ready`.
worker_moves_closer :
    (c : Closer) (p : Worker) (r a b : Bool) (s : Runtime)
    → s.closer ≡ c
    → AtCloser c s
    → (s.ready ≡ true → r ≡ true)
    → OfCloser (record s { worker = p; ready = r; loop_closed = a; closed_event = b })
worker_moves_closer nobody p r a b s q h k = rw q h
worker_moves_closer closing_unstarted p r a b s q h k = rw q h
worker_moves_closer closing_started p r a b s q h k = rw q h
worker_moves_closer inside p r a b s q h k = rw q h
worker_moves_closer shutting p r a b s q (x, y, z, u) k = rw q (x, y, z, k u)
worker_moves_closer joining p r a b s q (x, y, z, u) k = rw q (x, y, z, k u)
worker_moves_closer closer_done p r a b s q h k = rw q h

pub worker_step-closer :
    (e : Event) (p : Worker) (s t : Runtime) → OfCloser s → worker_step e p s ≡ some t → OfCloser t
unfolding worker_step
worker_step-closer (setup true) booting s t h e =
    moved OfCloser _ t e
      (worker_moves_closer s.closer set_up true s.loop_closed s.closed_event s refl h (λ _. refl))
worker_step-closer (setup false) booting s t h e =
    moved OfCloser _ t e
      (worker_moves_closer s.closer draining true s.loop_closed s.closed_event s refl h (λ _. refl))
worker_step-closer runs set_up s t h e =
    moved OfCloser _ t e
      (worker_moves_closer s.closer running s.ready s.loop_closed s.closed_event s refl h (λ k. k))
worker_step-closer stops running s t h e = guarded OfCloser s.stopping _ t e λ _.
    worker_moves_closer s.closer draining s.ready s.loop_closed s.closed_event s refl h (λ k. k)
worker_step-closer breaks running s t h e =
    moved OfCloser _ t e
      (worker_moves_closer s.closer draining s.ready s.loop_closed s.closed_event s refl h (λ k. k))
worker_step-closer finishes draining s t h e =
    moved OfCloser _ t e (worker_moves_closer s.closer dead s.ready true true s refl h (λ k. k))
worker_step-closer _ _ s t h e = cc

pub closer_step-closer :
    (e : Event) (c : Closer) (s t : Runtime)
    → AtCloser c s
    → closer_step e c s ≡ some t
    → OfCloser t
unfolding closer_step
closer_step-closer closes_unstarted closing_unstarted s t (a, b, c) e =
    moved OfCloser _ t e (omega arith, b)
closer_step-closer closes_inside closing_started s t (a, b, c) e =
    guarded OfCloser (s.ready && is_running s.worker) _ t e (λ _. (a, b))
closer_step-closer shuts_inside inside s t (a, b) e =
    guarded OfCloser (is_running s.worker) _ t e (λ _. (omega arith, b))
closer_step-closer shuts_down closing_started s t (a, b, c) e =
    guarded OfCloser s.ready _ t e (λ on. (ground arith, b, c, on))
closer_step-closer stops_loop shutting s t h e = moved OfCloser _ t e h
closer_step-closer joins joining s t (a, b, c, d) e = moved OfCloser _ t e (omega arith, b)
closer_step-closer _ _ s t h e = cc
