-- ===== src/Runtime.antt =====
-- `AsyncBridgeRuntime` (bridge/server.py): the thread that owns the loop, the callers of `start` and
-- `run`, and those of `close`, interleaved. One event is what one thread does under `_state_lock`, or
-- between two waits. How long a wait takes, and the result of a request, are not part of it.
mod Phases
mod Thread
mod Closing
pub mod Sound
pub mod Lifecycle
use stavrobot_imcp_plugin.Prelude.{
  ℕ, suc, Bool, true, false, not, ◌&&◌, ◌||◌, Option, none, some, ◌≡◌, if◌then◌else◌,
}

-- The thread in `_run`: its start is pending, it has set `_ready`, it is in `run_forever`, it drains
-- the pending tasks, or it has returned.
pub data Worker : Type 0 where
  unstarted booting set_up running draining dead : Worker

-- The thread whose call of `close` found the runtime open. `inside` is the task that `close` creates
-- when the runtime's own thread calls it.
pub data Closer : Type 0 where
  nobody closing_unstarted closing_started inside shutting joining closer_done : Closer

pub record Runtime : Type 0 where
  pub started : Bool
  pub closed : Bool
  pub ready : Bool
  pub closed_event : Bool
  pub worker : Worker
  pub closer : Closer
  pub loop_closed : Bool
  -- `loop.stop` was scheduled.
  pub stopping : Bool
  -- Threads started, coroutines handed to the loop by `run`, and those of `_shutdown_service`.
  pub starts : ℕ
  pub accepted : ℕ
  pub shutdowns : ℕ

abbrev pub new_runtime : Runtime
new_runtime = record {
  started = false;
  closed = false;
  ready = false;
  closed_event = false;
  worker = unstarted;
  closer = nobody;
  loop_closed = false;
  stopping = false;
  starts = 0;
  accepted = 0;
  shutdowns = 0;
}

-- `start_call` tells whether `Thread.start` succeeds, `run_call` whether
-- `run_coroutine_threadsafe` does, and `setup` whether the thread reaches `run_forever`. With `stops`
-- that call returns, and with `breaks` it raises.
pub data Event : Type 0 where
  start_call : Bool → Event
  run_call : Bool → Event
  close_call : Event
  setup : Bool → Event
  runs stops breaks finishes : Event
  closes_unstarted closes_inside shuts_inside shuts_down stops_loop joins : Event

unfoldable pub is_alive : Worker → Bool
is_alive unstarted = false
is_alive dead = false
is_alive _ = true

-- The drain runs the loop too, and a stop there only cuts it short.
is_running : Worker → Bool
is_running running = true
is_running draining = true
is_running _ = false

-- The section of `start` under the lock; a closed runtime raises, a started one goes on.
pub start_section : Bool → Runtime → Runtime
start_section succeeds s =
    if s.closed || s.started
    then s
    else (if succeeds
        then record s { started = true; worker = booting; starts = suc s.starts }
        else record s { started = true; closed = true; loop_closed = true; closed_event = true })

-- The section of `run` under the lock, after `start`.
pub run_section : Bool → Runtime → Runtime
unfolding is_alive
run_section succeeds s =
    if s.closed || (s.loop_closed || not (is_alive s.worker))
    then s
    else (if succeeds then record s { accepted = suc s.accepted } else s)

-- The section of `close` under the lock.
pub close_section : Runtime → Runtime
close_section s = if s.closed then s else record s {
  closed = true;
  closer = if s.started then closing_started else closing_unstarted;
}

-- The thread: `none` where it is not at that point.
pub worker_step : Event → Worker → Runtime → Option Runtime
worker_step (setup true) booting s = some (record s { worker = set_up; ready = true })
worker_step (setup false) booting s = some (record s { worker = draining; ready = true })
worker_step runs set_up s = some (record s { worker = running })
worker_step stops running s = if s.stopping then some (record s { worker = draining }) else none
worker_step breaks running s = some (record s { worker = draining })
worker_step finishes draining s =
    some (record s { worker = dead; loop_closed = true; closed_event = true })
worker_step _ _ s = none

-- The rest of `close`, in the thread that closes: it closes a loop that no thread owns, or waits for
-- `_ready`, runs the shutdown if the loop is open, stops the loop if that is running, and joins the
-- thread. On the runtime's own thread a task runs the shutdown and then stops the loop.
pub closer_step : Event → Closer → Runtime → Option Runtime
unfolding is_running is_alive
closer_step closes_unstarted closing_unstarted s =
    some (record s { closer = closer_done; loop_closed = true; closed_event = true })
closer_step closes_inside closing_started s =
    if s.ready && is_running s.worker then some (record s { closer = inside }) else none
closer_step shuts_inside inside s =
    if is_running s.worker
    then some (record s { closer = closer_done; stopping = true; shutdowns = suc s.shutdowns })
    else none
closer_step shuts_down closing_started s =
    if s.ready
    then some (record s {
      closer = shutting;
      shutdowns = if s.loop_closed then s.shutdowns else suc s.shutdowns;
    })
    else none
closer_step stops_loop shutting s =
    some
      (record s { closer = joining; stopping = if is_running s.worker then true else s.stopping })
closer_step joins joining s = some (record s {
  closer = closer_done;
  closed_event = if is_alive s.worker then s.closed_event else true;
})
closer_step _ _ s = none

unfoldable pub step : Event → Runtime → Option Runtime
unfolding start_section run_section close_section worker_step closer_step
step (start_call succeeds) s = some (start_section succeeds s)
step (run_call succeeds) s = some (run_section succeeds s)
step close_call s = some (close_section s)
step (setup succeeds) s = worker_step (setup succeeds) s.worker s
step runs s = worker_step runs s.worker s
step stops s = worker_step stops s.worker s
step breaks s = worker_step breaks s.worker s
step finishes s = worker_step finishes s.worker s
step closes_unstarted s = closer_step closes_unstarted s.closer s
step closes_inside s = closer_step closes_inside s.closer s
step shuts_inside s = closer_step shuts_inside s.closer s
step shuts_down s = closer_step shuts_down s.closer s
step stops_loop s = closer_step stops_loop s.closer s
step joins s = closer_step joins s.closer s

pub data Step (s : Runtime) (t : Runtime) : Type 0 where
  by : (e : Event) → step e s ≡ some t → Step s t

pub data Reach : Runtime → Type 0 where
  here : Reach new_runtime
  next : {s t : Runtime} → Reach s → Step s t → Reach t
