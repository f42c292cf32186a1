-- ===== src/Runtime/Thread.antt =====
-- The steps keep what the fields say of the thread of the loop (bridge/server.py).
use stavrobot_imcp_plugin.Prelude.{
  ℕ, suc, Bool, true, false, not, ◌||◌, ◌&&◌, some, ◌≡◌, refl, ◌∙◌, arith, if◌then◌else◌,
}
use stavrobot_imcp_plugin.Runtime.{
  Worker, unstarted, booting, set_up, running, draining, dead, Closer, closing_unstarted,
  closing_started, inside, shutting, joining, closer_done, Runtime, Event, setup, runs, stops,
  breaks, finishes, closes_unstarted, closes_inside, shuts_inside, shuts_down, stops_loop, joins,
  is_alive, is_running, start_section, run_section, close_section, worker_step, closer_step,
}
use stavrobot_imcp_plugin.Runtime.Phases.{AtWorker, AtCloser, OfWorker, pick, moved, guarded}

started_worker :
    (b : Bool) (p : Worker) (s : Runtime)
    → s.worker ≡ p
    → AtWorker p s
    → (s.closed || s.started) ≡ false
    → OfWorker (
        if b
        then record s { started = true; worker = booting; starts = suc s.starts }
        else record s { started = true; closed = true; loop_closed = true; closed_event = true })
started_worker true unstarted s q (a, r, c, f, g) e =
    (omega arith, r, ground arith, ground arith, refl)
started_worker false unstarted s q (a, r, c, f, g) e =
    rw q (a, r, refl, λ _. (refl, refl), λ _. refl)
started_worker b booting s q (_, _, _, _, h) e = absurd (ground arith)
started_worker b set_up s q (_, _, _, _, h) e = absurd (ground arith)
started_worker b running s q (_, _, _, _, h) e = absurd (ground arith)
started_worker b draining s q (_, _, _, _, h) e = absurd (ground arith)
started_worker b dead s q (_, _, _, _, h) e = absurd (ground arith)

pub start_section-worker : (b : Bool) (s : Runtime) → OfWorker s → OfWorker (start_section b s)
unfolding start_section
start_section-worker b s h =
    pick OfWorker (s.closed || s.started) _ _ (λ _. h) (started_worker b s.worker s refl h)

-- A field that the thread's part does not mention.
accepting_worker :
    (p : Worker) (s : Runtime)
    → s.worker ≡ p
    → AtWorker p s
    → OfWorker (record s { accepted = suc s.accepted })
accepting_worker unstarted s q h = rw q h
accepting_worker booting s q h = rw q h
accepting_worker set_up s q h = rw q h
accepting_worker running s q h = rw q h
accepting_worker draining s q h = rw q h
accepting_worker dead s q h = rw q h

pub run_section-worker : (b : Bool) (s : Runtime) → OfWorker s → OfWorker (run_section b s)
unfolding run_section
run_section-worker b s h =
    pick OfWorker (s.closed || (s.loop_closed || not (is_alive s.worker))) _ _ (λ _. h)
      (λ _. pick OfWorker b _ _ (λ _. accepting_worker s.worker s refl h) (λ _. h))

closing_worker :
    (c : Closer) (p : Worker) (s : Runtime)
    → s.worker ≡ p
    → AtWorker p s
    → OfWorker (record s { closed = true; closer = c })
closing_worker c unstarted s q (a, r, d, f, g) = rw q (a, r, d, λ on. (refl, (f on).1), λ _. refl)
closing_worker c booting s q h = rw q h
closing_worker c set_up s q h = rw q h
closing_worker c running s q h = rw q h
closing_worker c draining s q h = rw q h
closing_worker c dead s q h = rw q h

pub close_section-worker : (s : Runtime) → OfWorker s → OfWorker (close_section s)
unfolding close_section
close_section-worker s h =
    pick OfWorker s.closed _ _ (λ _. h) (λ _. closing_worker _ s.worker s refl h)

pub worker_step-worker :
    (e : Event) (p : Worker) (s t : Runtime)
    → AtWorker p s
    → worker_step e p s ≡ some t
    → OfWorker t
unfolding worker_step
worker_step-worker (setup true) booting s t (a, r, c, d, g) e =
    moved OfWorker _ t e (a, refl, c, d, g)
worker_step-worker (setup false) booting s t (a, r, c, d, g) e =
    moved OfWorker _ t e (a, refl, c, d, g)
worker_step-worker runs set_up s t h e = moved OfWorker _ t e h
worker_step-worker stops running s t h e = guarded OfWorker s.stopping _ t e (λ _. h)
worker_step-worker breaks running s t h e = moved OfWorker _ t e h
worker_step-worker finishes draining s t (a, r, c, d, g) e =
    moved OfWorker _ t e (a, r, refl, refl, g)
worker_step-worker _ _ s t h e = cc

-- The closing thread changes the fields of the running thread only where there is none.
closes_unstarted-worker :
    (p : Worker) (s : Runtime)
    → s.worker ≡ p
    → AtWorker p s
    → AtCloser closing_unstarted s
    → OfWorker (record s { closer = closer_done; loop_closed = true; closed_event = true })
closes_unstarted-worker unstarted s q (a, r, d, f, g) (x, y, z) =
    rw q (a, r, refl, λ on. (y, refl), λ _. y)
closes_unstarted-worker booting s q (_, _, _, _, h) (x, y, z) = absurd (cc)
closes_unstarted-worker set_up s q (_, _, _, _, h) (x, y, z) = absurd (cc)
closes_unstarted-worker running s q (_, _, _, _, h) (x, y, z) = absurd (cc)
closes_unstarted-worker draining s q (_, _, _, _, h) (x, y, z) = absurd (cc)
closes_unstarted-worker dead s q (_, _, _, _, h) (x, y, z) = absurd (cc)

shutting_worker :
    (c : Closer) (n : ℕ) (b : Bool) (p : Worker) (s : Runtime)
    → s.worker ≡ p
    → AtWorker p s
    → OfWorker (record s { closer = c; shutdowns = n; stopping = b })
shutting_worker c n b unstarted s q h = rw q h
shutting_worker c n b booting s q h = rw q h
shutting_worker c n b set_up s q h = rw q h
shutting_worker c n b running s q h = rw q h
shutting_worker c n b draining s q h = rw q h
shutting_worker c n b dead s q h = rw q h

joined_worker :
    (p : Worker) (s : Runtime)
    → s.worker ≡ p
    → AtWorker p s
    → s.started ≡ true
    → OfWorker (record s {
      closer = closer_done;
      closed_event = if is_alive p then s.closed_event else true;
    })
unfolding is_alive
joined_worker unstarted s q (a, r, d, f, g) on = rw q (a, r, d ∙ (f on).1, λ _. ((f on).0, refl), g)
joined_worker booting s q h on = rw q h
joined_worker set_up s q h on = rw q h
joined_worker running s q h on = rw q h
joined_worker draining s q h on = rw q h
joined_worker dead s q (a, r, c, d, h) on = rw q (a, r, c, refl, h)

pub closer_step-worker :
    (e : Event) (c : Closer) (s t : Runtime)
    → OfWorker s
    → AtCloser c s
    → closer_step e c s ≡ some t
    → OfWorker t
unfolding closer_step
closer_step-worker closes_unstarted closing_unstarted s t h k e =
    moved OfWorker _ t e (closes_unstarted-worker s.worker s refl h k)
closer_step-worker closes_inside closing_started s t h k e =
    guarded OfWorker (s.ready && is_running s.worker) _ t e
      (λ _. shutting_worker inside s.shutdowns s.stopping s.worker s refl h)
closer_step-worker shuts_inside inside s t h k e =
    guarded OfWorker (is_running s.worker) _ t e
      (λ _. shutting_worker closer_done _ true s.worker s refl h)
closer_step-worker shuts_down closing_started s t h k e =
    guarded OfWorker s.ready _ t e (λ _. shutting_worker shutting _ s.stopping s.worker s refl h)
closer_step-worker stops_loop shutting s t h k e =
    moved OfWorker _ t e (shutting_worker joining s.shutdowns _ s.worker s refl h)
closer_step-worker joins joining s t h (a, b, on, c) e =
    moved OfWorker _ t e (joined_worker s.worker s refl h on)
closer_step-worker _ _ s t h k e = cc
