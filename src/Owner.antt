-- ===== src/Owner.antt =====
-- The task of a `_SessionOwner` and its callers, interleaved (bridge/server.py): `start`, `_run` and
-- the requests of `close`. A step of the task is what it does between two awaits; a request may come
-- between any two of them.
pub mod Once
pub mod Ends
use stavrobot_imcp_plugin.Prelude.{
  ℕ, suc, Bool, true, false, Option, none, some, List, [], ◌∷◌, ◌≡◌, if◌then◌else◌,
}

-- How the body of `_run` came to its `finally`, which is how the task ends.
pub data Ending : Type 0 where
  finished cancelled crashed : Ending

-- Where the task stands; `created` is a task that has not run yet.
pub data Phase : Type 0 where
  not_started created entering serving : Phase
  exiting done : Ending → Phase

-- The future `ready`.
pub data Ready : Type 0 where
  waiting has_result has_exception ready_cancelled : Ready

pub record Owner : Type 0 where
  -- The context has an `__aexit__` that can be called.
  pub can_exit : Bool
  pub phase : Phase
  pub ready : Ready
  pub stop_event : Bool
  -- `task.cancel()` was called and is not delivered.
  pub cancelling : Bool
  pub entered : Bool
  pub exit_error : Bool
  -- The calls of `__aenter__` and `__aexit__`.
  pub enters : ℕ
  pub exits : ℕ

abbrev pub new_owner : Bool → Owner
new_owner can_exit = record {
  can_exit = can_exit;
  phase = not_started;
  ready = waiting;
  stop_event = false;
  cancelling = false;
  entered = false;
  exit_error = false;
  enters = 0;
  exits = 0;
}

-- `start`, the requests of `close`, and what the task's awaits may end with: the context enters or
-- raises, the stop event is set, the exit returns or raises, a cancellation is delivered.
pub data Event : Type 0 where
  start request_stop request_cancel : Event
  begin enters_context enter_raises enter_cancelled : Event
  stops serve_cancelled : Event
  exit_returns exit_raises : Event

-- `if not self.ready.done(): ...`.
unfoldable pub settle : Ready → Ready → Ready
settle waiting r = r
settle has_result r = has_result
settle has_exception r = has_exception
settle ready_cancelled r = ready_cancelled

-- The call of `__aexit__` on the way out, if the context has one.
leave : Ending → Owner → Owner
leave ending s =
    if s.can_exit
    then record s { phase = exiting ending; exits = suc s.exits }
    else record s { phase = done ending }

begin_task : Bool → Owner → Owner
begin_task true s = record s { phase = done cancelled; cancelling = false }
begin_task false s = record s { phase = entering; enters = suc s.enters }

-- A step of the task, at the phase where it stands; `none` is a step that it cannot take.
task_step : Event → Phase → Owner → Option Owner
unfolding begin_task settle leave
task_step begin created s = some (begin_task s.cancelling s)
task_step enters_context entering s =
    some (record s { phase = serving; entered = true; ready = settle s.ready has_result })
task_step enter_raises entering s =
    some (record s { phase = done crashed; ready = settle s.ready has_exception })
task_step enter_cancelled entering s =
    if s.cancelling
    then some (record s {
      phase = done cancelled;
      cancelling = false;
      ready = settle s.ready ready_cancelled;
    })
    else none
task_step stops serving s = if s.stop_event then some (leave finished s) else none
task_step serve_cancelled serving s =
    if s.cancelling then some (leave cancelled (record s { cancelling = false })) else none
task_step exit_returns (exiting ending) s = some (record s { phase = done ending })
task_step exit_raises (exiting ending) s =
    some (record s { phase = done ending; exit_error = true })
task_step _ _ s = none

unfoldable pub is_done : Phase → Bool
is_done (done ending) = true
is_done _ = false

start_task : Phase → Owner → Option Owner
start_task not_started s = some (record s { phase = created })
start_task _ s = none

stop_task : Phase → Owner → Option Owner
stop_task not_started s = none
stop_task _ s = some (record s { stop_event = true })

-- `task.cancel()`, of `close` or of the drain of the loop.
cancel_task : Phase → Owner → Option Owner
unfolding is_done
cancel_task not_started s = none
cancel_task p s = if is_done p then none else some (record s { cancelling = true })

unfoldable pub step : Event → Owner → Option Owner
unfolding task_step start_task stop_task cancel_task
step start s = start_task s.phase s
step request_stop s = stop_task s.phase s
step request_cancel s = cancel_task s.phase s
step e s = task_step e s.phase s

pub data Step (s : Owner) (t : Owner) : Type 0 where
  by : (e : Event) → step e s ≡ some t → Step s t

pub data Reach : Owner → Type 0 where
  here : (can_exit : Bool) → Reach (new_owner can_exit)
  next : {s t : Owner} → Reach s → Step s t → Reach t
