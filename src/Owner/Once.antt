-- ===== src/Owner/Once.antt =====
-- A context is entered at most once and exited at most once (bridge/server.py, `_SessionOwner`).
use mathlib.Core.Path.{subst}
use stavrobot_imcp_plugin.Prelude.{
  Bool-cases, if◌then◌else◌, ◌≤◌, ◌<◌, Bool, true, false, none, some, ◌≡◌, ◌≢◌, ◌⊎◌, inl, inr, refl,
  arith, if◌then◌else◌,
}
use stavrobot_imcp_plugin.Owner.{
  Ending, finished, cancelled, crashed, Phase, not_started, created, entering, serving, exiting,
  done, waiting, has_result, Owner, Event, start, request_stop, request_cancel, begin,
  enters_context, enter_raises, enter_cancelled, stops, serve_cancelled, exit_returns, exit_raises,
  settle, leave, begin_task, task_step, start_task, stop_task, cancel_task, step, by, Reach, here,
  next,
}

-- What the fields say at each phase.
abbrev AtPhase : Phase → Owner → Type 0
AtPhase not_started s =
    (s.enters ≡ 0)
    × (s.exits ≡ 0)
    × (s.entered ≡ false)
    × (s.ready ≡ waiting)
    × (s.stop_event ≡ false)
AtPhase created s = (s.enters ≡ 0) × (s.exits ≡ 0) × (s.entered ≡ false) × (s.ready ≡ waiting)
AtPhase entering s = (s.enters ≡ 1) × (s.exits ≡ 0) × (s.entered ≡ false) × (s.ready ≡ waiting)
AtPhase serving s = (s.enters ≡ 1) × (s.exits ≡ 0) × (s.entered ≡ true) × (s.ready ≡ has_result)
AtPhase (exiting ending) s =
    (s.enters ≡ 1)
    × (s.exits ≡ 1)
    × (s.entered ≡ true)
    × (s.ready ≡ has_result)
    × (ending ≢ crashed)
AtPhase (done ending) s =
    ((s.enters ≡ 1) × (s.exits ≡ 1) × (s.entered ≡ true) × (s.ready ≡ has_result))
    ⊎ ((s.enters ≡ 1)
        × (s.exits ≡ 0)
        × (s.entered ≡ false)
        × (s.ready ≢ has_result)
        × (s.ready ≢ waiting))
    ⊎ ((s.enters ≡ 0)
        × (s.exits ≡ 0)
        × (s.entered ≡ false)
        × (s.ready ≡ waiting)
        × (ending ≡ cancelled))
    ⊎ ((s.enters ≡ 1)
        × (s.exits ≡ 0)
        × (s.entered ≡ true)
        × (s.ready ≡ has_result)
        × (s.can_exit ≡ false))

abbrev Inv : Owner → Type 0
Inv s = AtPhase s.phase s

some-eq : {A : Type 0} {x y : A} → some x ≡ some y → x ≡ y
some-eq h = cc

moved : {x t : Owner} → some x ≡ some t → AtPhase x.phase x → Inv t
moved e h = subst Inv (some-eq e) h

begin_task-Inv : (b : Bool) (s : Owner) → AtPhase created s → Inv (begin_task b s)
unfolding begin_task
begin_task-Inv true s (a, b, c, d) = inr (inr (inl (a, b, c, d, refl)))
begin_task-Inv false s (a, b, c, d) = (omega arith, b, c, d)

guarded :
    (b : Bool) (x t : Owner) → (if b then some x else none) ≡ some t → AtPhase x.phase x → Inv t
guarded true x t e h = moved e h
guarded false x t e h = cc

leave-Inv :
    (ending : Ending) (s : Owner) → ending ≢ crashed → AtPhase serving s → Inv (leave ending s)
unfolding leave
leave-Inv ending s n (a, b, c, d) = elim (Bool-cases s.can_exit) [
  | inl can ↦ rw (can, leave) (a, omega arith, c, d, n)
  | inr cannot ↦ rw (cannot, leave) (inr (inr (inr (a, b, c, d, refl))))
]

task_step-Inv :
    (e : Event) (p : Phase) (s t : Owner) → AtPhase p s → task_step e p s ≡ some t → Inv t
unfolding task_step settle
task_step-Inv begin created s t h e = moved e (begin_task-Inv s.cancelling s h)
task_step-Inv enters_context entering s t (a, b, c, d) e = moved e (a, b, refl, rw d refl)
task_step-Inv enter_raises entering s t (a, b, c, d) e =
    moved e (inr (inl (a, b, c, rw d (λ q. cc), rw d (λ q. cc))))
task_step-Inv enter_cancelled entering s t (a, b, c, d) e =
    guarded s.cancelling _ t e (inr (inl (a, b, c, rw d (λ q. cc), rw d (λ q. cc))))
task_step-Inv stops serving s t h e = guarded s.stop_event _ t e (leave-Inv finished s (λ q. cc) h)
task_step-Inv serve_cancelled serving s t h e =
    guarded s.cancelling _ t e (leave-Inv cancelled (record s { cancelling = false }) (λ q. cc) h)
task_step-Inv exit_returns (exiting ending) s t (a, b, c, d, _) e = moved e (inl (a, b, c, d))
task_step-Inv exit_raises (exiting ending) s t (a, b, c, d, _) e = moved e (inl (a, b, c, d))
task_step-Inv _ _ s t h e = cc

start_task-Inv : (p : Phase) (s t : Owner) → AtPhase p s → start_task p s ≡ some t → Inv t
unfolding start_task
start_task-Inv not_started s t (a, b, c, d, _) e = moved e (a, b, c, d)
start_task-Inv _ s t h e = cc

-- A request leaves the task where it stands.
stop_task-Inv :
    (p : Phase) (s t : Owner) → s.phase ≡ p → AtPhase p s → stop_task p s ≡ some t → Inv t
unfolding stop_task
stop_task-Inv not_started s t q h e = cc
stop_task-Inv created s t q h e = moved e (rw q h)
stop_task-Inv entering s t q h e = moved e (rw q h)
stop_task-Inv serving s t q h e = moved e (rw q h)
stop_task-Inv (exiting ending) s t q h e = moved e (rw q h)
stop_task-Inv (done ending) s t q h e = moved e (rw q h)

cancel_task-Inv :
    (p : Phase) (s t : Owner) → s.phase ≡ p → AtPhase p s → cancel_task p s ≡ some t → Inv t
unfolding cancel_task
cancel_task-Inv not_started s t q h e = cc
cancel_task-Inv created s t q h e = moved e (rw q h)
cancel_task-Inv entering s t q h e = moved e (rw q h)
cancel_task-Inv serving s t q h e = moved e (rw q h)
cancel_task-Inv (exiting ending) s t q h e = moved e (rw q h)
cancel_task-Inv (done ending) s t q h e = cc

step-Inv : (e : Event) (s t : Owner) → Inv s → step e s ≡ some t → Inv t
unfolding step
step-Inv start s t h e = start_task-Inv s.phase s t h e
step-Inv request_stop s t h e = stop_task-Inv s.phase s t refl h e
step-Inv request_cancel s t h e = cancel_task-Inv s.phase s t refl h e
step-Inv begin s t h e = task_step-Inv begin s.phase s t h e
step-Inv enters_context s t h e = task_step-Inv enters_context s.phase s t h e
step-Inv enter_raises s t h e = task_step-Inv enter_raises s.phase s t h e
step-Inv enter_cancelled s t h e = task_step-Inv enter_cancelled s.phase s t h e
step-Inv stops s t h e = task_step-Inv stops s.phase s t h e
step-Inv serve_cancelled s t h e = task_step-Inv serve_cancelled s.phase s t h e
step-Inv exit_returns s t h e = task_step-Inv exit_returns s.phase s t h e
step-Inv exit_raises s t h e = task_step-Inv exit_raises s.phase s t h e

Reach-Inv : {s : Owner} → Reach s → Inv s
Reach-Inv (here can_exit) = (refl, refl, refl, refl, refl)
Reach-Inv (next r (by e q)) = step-Inv e _ _ (Reach-Inv r) q

-- A context that was entered is exited when the task is done, and only then or on the way there.
pub record IsOnce (s : Owner) : Type 0 where
  pub enters_once : s.enters ≤ 1
  pub exits-le-enters : s.exits ≤ s.enters
  pub exits_entered : 0 < s.exits → s.entered ≡ true
  pub done_exited :
      (ending : Ending) → s.phase ≡ done ending → s.entered ≡ true → s.can_exit ≡ true → s.exits ≡ 1
  pub result_entered : s.ready ≡ has_result → s.entered ≡ true
  pub entered_result : s.entered ≡ true → s.ready ≡ has_result
  pub resolved : (ending : Ending) → s.phase ≡ done ending → s.enters ≡ 1 → s.ready ≢ waiting

AtPhase-IsOnce : (p : Phase) (s : Owner) → s.phase ≡ p → AtPhase p s → IsOnce s
AtPhase-IsOnce not_started s q (a, b, c, d, k) = record {
  enters_once = omega arith;
  exits-le-enters = omega arith;
  exits_entered = λ lt. ground arith;
  done_exited = λ after e on can. ground arith;
  result_entered = λ e. ground arith;
  entered_result = λ e. ground arith;
  resolved = λ after e once. ground arith;
}
AtPhase-IsOnce created s q (a, b, c, d) = record {
  enters_once = omega arith;
  exits-le-enters = omega arith;
  exits_entered = λ lt. ground arith;
  done_exited = λ after e on can. ground arith;
  result_entered = λ e. ground arith;
  entered_result = λ e. ground arith;
  resolved = λ after e once. ground arith;
}
AtPhase-IsOnce entering s q (a, b, c, d) = record {
  enters_once = omega arith;
  exits-le-enters = omega arith;
  exits_entered = λ lt. ground arith;
  done_exited = λ after e on can. ground arith;
  result_entered = λ e. ground arith;
  entered_result = λ e. ground arith;
  resolved = λ after e once. ground arith;
}
AtPhase-IsOnce serving s q (a, b, c, d) = record {
  enters_once = omega arith;
  exits-le-enters = omega arith;
  exits_entered = λ lt. ground arith;
  done_exited = λ after e on can. ground arith;
  result_entered = λ e. ground arith;
  entered_result = λ e. ground arith;
  resolved = λ after e once. ground arith;
}
AtPhase-IsOnce (exiting ending) s q (a, b, c, d, k) = record {
  enters_once = omega arith;
  exits-le-enters = omega arith;
  exits_entered = λ lt. ground arith;
  done_exited = λ after e on can. ground arith;
  result_entered = λ e. ground arith;
  entered_result = λ e. ground arith;
  resolved = λ after e once. ground arith;
}
AtPhase-IsOnce (done ending) s q (inl (a, b, c, d)) = record {
  enters_once = omega arith;
  exits-le-enters = omega arith;
  exits_entered = λ lt. ground arith;
  done_exited = λ after e on can. ground arith;
  result_entered = λ e. ground arith;
  entered_result = λ e. ground arith;
  resolved = λ after e once. ground arith;
}
AtPhase-IsOnce (done ending) s q (inr (inl (a, b, c, d, k))) = record {
  enters_once = omega arith;
  exits-le-enters = omega arith;
  exits_entered = λ lt. ground arith;
  done_exited = λ after e on can. ground arith;
  result_entered = λ e. ground arith;
  entered_result = λ e. ground arith;
  resolved = λ after e once. ground arith;
}
AtPhase-IsOnce (done ending) s q (inr (inr (inl (a, b, c, d, k)))) = record {
  enters_once = omega arith;
  exits-le-enters = omega arith;
  exits_entered = λ lt. ground arith;
  done_exited = λ after e on can. ground arith;
  result_entered = λ e. ground arith;
  entered_result = λ e. ground arith;
  resolved = λ after e once. ground arith;
}
AtPhase-IsOnce (done ending) s q (inr (inr (inr (a, b, c, d, k)))) = record {
  enters_once = omega arith;
  exits-le-enters = omega arith;
  exits_entered = λ lt. ground arith;
  done_exited = λ after e on can. ground arith;
  result_entered = λ e. ground arith;
  entered_result = λ e. ground arith;
  resolved = λ after e once. ground arith;
}

-- However the task and its callers interleave: the context is entered at most once; it is exited at
-- most once, only if it was entered, and it was exited once if it was entered, can be exited and the
-- task is done;
-- the future `ready` has the session exactly if the context was entered, and it is resolved when a
-- task that began to enter is done.
pub Reach-IsOnce : {s : Owner} → Reach s → IsOnce s
Reach-IsOnce {s} r = AtPhase-IsOnce s.phase s refl (Reach-Inv r)
