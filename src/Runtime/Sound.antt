-- ===== src/Runtime/Sound.antt =====
-- What holds in every state of the runtime (bridge/server.py, `AsyncBridgeRuntime`).
use stavrobot_imcp_plugin.Prelude.{◌≤◌, ◌<◌, true, false, some, ◌≡◌, refl, ◌∙◌, arith}
use stavrobot_imcp_plugin.Runtime.{
  Worker, unstarted, booting, set_up, running, draining, dead, Closer, nobody, closing_unstarted,
  closing_started, inside, shutting, joining, closer_done, Runtime, Event, start_call, run_call,
  close_call, setup, runs, stops, breaks, finishes, closes_unstarted, closes_inside, shuts_inside,
  shuts_down, stops_loop, joins, is_alive, worker_step, closer_step, step, by, Reach, here, next,
}
use stavrobot_imcp_plugin.Runtime.Phases.{AtWorker, AtCloser, OfWorker, OfCloser, moved}
use stavrobot_imcp_plugin.Runtime.Thread.{
  start_section-worker, run_section-worker, close_section-worker, worker_step-worker,
  closer_step-worker,
}
use stavrobot_imcp_plugin.Runtime.Closing.{
  start_section-closer, run_section-closer, close_section-closer, worker_step-closer,
  closer_step-closer,
}

abbrev pub Inv : Runtime → Type 0
Inv s = OfWorker s × OfCloser s

of_worker_step : (e : Event) (s t : Runtime) → Inv s → worker_step e s.worker s ≡ some t → Inv t
of_worker_step e s t (w, c) h =
    (worker_step-worker e s.worker s t w h, worker_step-closer e s.worker s t c h)

of_closer_step : (e : Event) (s t : Runtime) → Inv s → closer_step e s.closer s ≡ some t → Inv t
of_closer_step e s t (w, c) h =
    (closer_step-worker e s.closer s t w c h, closer_step-closer e s.closer s t c h)

step-Inv : (e : Event) (s t : Runtime) → Inv s → step e s ≡ some t → Inv t
unfolding step
step-Inv (start_call b) s t h e =
    moved Inv _ t e ((start_section-worker b s h.0, start_section-closer b s h.1))
step-Inv (run_call b) s t h e =
    moved Inv _ t e ((run_section-worker b s h.0, run_section-closer b s h.1))
step-Inv close_call s t h e =
    moved Inv _ t e ((close_section-worker s h.0, close_section-closer s h.1))
step-Inv (setup b) s t h e = of_worker_step (setup b) s t h e
step-Inv runs s t h e = of_worker_step runs s t h e
step-Inv stops s t h e = of_worker_step stops s t h e
step-Inv breaks s t h e = of_worker_step breaks s t h e
step-Inv finishes s t h e = of_worker_step finishes s t h e
step-Inv closes_unstarted s t h e = of_closer_step closes_unstarted s t h e
step-Inv closes_inside s t h e = of_closer_step closes_inside s t h e
step-Inv shuts_inside s t h e = of_closer_step shuts_inside s t h e
step-Inv shuts_down s t h e = of_closer_step shuts_down s t h e
step-Inv stops_loop s t h e = of_closer_step stops_loop s t h e
step-Inv joins s t h e = of_closer_step joins s t h e

pub Reach-Inv : {s : Runtime} → Reach s → Inv s
Reach-Inv here = ((refl, refl, refl, λ e. cc, λ e. cc), refl)
Reach-Inv (next r (by e q)) = step-Inv e _ _ (Reach-Inv r) q

pub record IsSound (s : Runtime) : Type 0 where
  pub starts_once : s.starts ≤ 1
  pub shutdown_once : s.shutdowns ≤ 1
  pub shutdown_closed : 0 < s.shutdowns → s.closed ≡ true
  pub event_closes_loop : s.closed_event ≡ true → s.loop_closed ≡ true
  pub loop_unused : s.loop_closed ≡ true → is_alive s.worker ≡ false
  pub returned : s.worker ≡ dead → s.closed_event ≡ true

worker_sound :
    (p : Worker) (s : Runtime)
    → AtWorker p s
    → (s.starts ≤ 1)
      × (s.closed_event ≡ true → s.loop_closed ≡ true)
      × (s.loop_closed ≡ true → is_alive p ≡ false)
      × (p ≡ dead → s.closed_event ≡ true)
unfolding is_alive
worker_sound unstarted s (a, r, d, f, g) = (omega arith, λ e. d ∙ e, λ e. refl, λ e. cc)
worker_sound booting s (a, r, c, d, g) = (omega arith, λ e. cc, λ e. cc, λ e. cc)
worker_sound set_up s (a, r, c, d, g) = (omega arith, λ e. cc, λ e. cc, λ e. cc)
worker_sound running s (a, r, c, d, g) = (omega arith, λ e. cc, λ e. cc, λ e. cc)
worker_sound draining s (a, r, c, d, g) = (omega arith, λ e. cc, λ e. cc, λ e. cc)
worker_sound dead s (a, r, c, d, g) = (omega arith, λ e. c, λ e. refl, λ e. d)

closer_sound :
    (c : Closer) (s : Runtime)
    → AtCloser c s
    → (s.shutdowns ≤ 1) × (0 < s.shutdowns → s.closed ≡ true)
closer_sound nobody s h = (omega arith, λ lt. absurd (omega arith))
closer_sound closing_unstarted s (h, c, _) = (omega arith, λ lt. c)
closer_sound closing_started s (h, c, _) = (omega arith, λ lt. c)
closer_sound inside s (h, c) = (omega arith, λ lt. c)
closer_sound shutting s (h, c, _, _) = (h, λ lt. c)
closer_sound joining s (h, c, _, _) = (h, λ lt. c)
closer_sound closer_done s (h, c) = (h, λ lt. c)

-- However the threads interleave: at most one thread is started and the service is shut down at most
-- once, after the runtime was marked closed; the event that the waiting callers of `close` see is set
-- only when the loop is closed, and always when the thread has returned; and the loop is closed only
-- where no thread runs it.
pub Reach-IsSound : {s : Runtime} → Reach s → IsSound s
Reach-IsSound {s} r =
    let (w, c) = Reach-Inv r in
    let (a, b, d, e) = worker_sound s.worker s w in
    let (f, g) = closer_sound s.closer s c in
    record {
      starts_once = a;
      shutdown_once = f;
      shutdown_closed = g;
      event_closes_loop = b;
      loop_unused = d;
      returned = e;
    }
