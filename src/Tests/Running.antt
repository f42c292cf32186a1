-- ===== src/Tests/Running.antt =====
-- The session owner and the runtime (bridge/server.py) on one order of their steps.
use stavrobot_imcp_plugin.Prelude.{[], ◌∷◌, ◌≤◌, true, false, ◌≡◌, ◌⊎◌, refl}
use stavrobot_imcp_plugin.Owner
use stavrobot_imcp_plugin.Owner.{Owner, new_owner}
use stavrobot_imcp_plugin.Owner.Once.{IsOnce, Reach-IsOnce}
use stavrobot_imcp_plugin.Owner.Ends.{Schedule, idle, first, own_steps, Advances, close_ends}
use stavrobot_imcp_plugin.Runtime
use stavrobot_imcp_plugin.Runtime.{Runtime, new_runtime}
use stavrobot_imcp_plugin.Runtime.Sound.{IsSound, Reach-IsSound}
use stavrobot_imcp_plugin.Runtime.Lifecycle.{Refines, step-Refines}

-- The context was entered, and the caller of `close` has set the stop event.
abbrev stopping_owner : Owner
stopping_owner = record {
  can_exit = true;
  phase = Owner.serving;
  ready = Owner.has_result;
  stop_event = true;
  cancelling = false;
  entered = true;
  exit_error = false;
  enters = 1;
  exits = 0;
}

stopping_owner-Reach : Owner.Reach stopping_owner
unfolding Owner.step
stopping_owner-Reach =
    Owner.next
      (Owner.next
        (Owner.next (Owner.next (Owner.here true) (Owner.by Owner.start refl))
          (Owner.by Owner.begin refl))
        (Owner.by Owner.enters_context refl))
      (Owner.by Owner.request_stop refl)

Reach-IsOnce_example : IsOnce stopping_owner
Reach-IsOnce_example = Reach-IsOnce stopping_owner-Reach

-- The context was exited, and the task has ended.
abbrev ended_owner : Owner
ended_owner = record stopping_owner { phase = Owner.done Owner.finished; exits = 1 }

stopping_owner-Schedule :
    Schedule (Owner.stops ∷ Owner.exit_returns ∷ []) stopping_owner ended_owner
unfolding Owner.step
stopping_owner-Schedule = first Owner.stops refl (first Owner.exit_returns refl idle)

close_ends_example :
    (own_steps (Owner.stops ∷ Owner.exit_returns ∷ []) ≤ 4)
    × ((Owner.is_done ended_owner.phase ≡ true) ⊎ Advances ended_owner)
close_ends_example =
    close_ends (Owner.stops ∷ Owner.exit_returns ∷ []) stopping_owner ended_owner (λ e. cc) refl
      stopping_owner-Schedule

-- A thread runs the loop, one request was accepted, and a caller has marked the runtime closed.
abbrev closing_runtime : Runtime
closing_runtime = record {
  started = true;
  closed = true;
  ready = true;
  closed_event = false;
  worker = Runtime.running;
  closer = Runtime.closing_started;
  loop_closed = false;
  stopping = false;
  starts = 1;
  accepted = 1;
  shutdowns = 0;
}

closing_runtime-Reach : Runtime.Reach closing_runtime
unfolding Runtime.step
closing_runtime-Reach =
    Runtime.next
      (Runtime.next
        (Runtime.next
          (Runtime.next (Runtime.next Runtime.here (Runtime.by (Runtime.start_call true) refl))
            (Runtime.by (Runtime.setup true) refl))
          (Runtime.by Runtime.runs refl))
        (Runtime.by (Runtime.run_call true) refl))
      (Runtime.by Runtime.close_call refl)

Reach-IsSound_example : IsSound closing_runtime
Reach-IsSound_example = Reach-IsSound closing_runtime-Reach

-- `close` waits for the shutdown of the service.
abbrev shut_runtime : Runtime
shut_runtime = record closing_runtime { closer = Runtime.shutting; shutdowns = 1 }

step-Refines_example : Refines closing_runtime shut_runtime
unfolding Runtime.step
step-Refines_example = step-Refines Runtime.shuts_down closing_runtime-Reach refl
