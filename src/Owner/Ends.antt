-- ===== src/Owner/Ends.antt =====
-- After `close` has set the stop event, the task ends (bridge/server.py, `_SessionOwner`).
use stavrobot_imcp_plugin.Prelude.{
  ℕ, ◌+◌, ◌≤◌, ◌<◌, List, [], ◌∷◌, Bool, true, false, some, ◌≡◌, ◌≢◌, ◌⊎◌, inl, inr, refl, sym, ap,
  ◌∙◌, arith,
}
use stavrobot_imcp_plugin.Owner.{
  finished, Phase, not_started, created, entering, serving, exiting, done, Owner, Event, start,
  request_stop, request_cancel, begin, enters_context, enter_raises, enter_cancelled, stops,
  serve_cancelled, exit_returns, exit_raises, leave, begin_task, task_step, start_task, stop_task,
  cancel_task, is_done, step,
}

-- How many steps of the task are left at most.
rank : Phase → ℕ
rank not_started = 5
rank created = 4
rank entering = 3
rank serving = 2
rank (exiting ending) = 1
rank (done ending) = 0

-- One for a step of the task itself, zero for one of its callers.
abbrev pub own : Event → ℕ
own start = 0
own request_stop = 0
own request_cancel = 0
own _ = 1

abbrev pub own_steps : List Event → ℕ
own_steps [] = 0
own_steps (e ∷ es) = own e + own_steps es

-- The next state is as near to the end, or nearer by a step of the task, and has the stop event still.
abbrev Nearer : Event → Owner → Owner → Type 0
Nearer e s t = (t.stop_event ≡ s.stop_event) × (own e + rank t.phase ≤ rank s.phase)

-- A schedule: the events in their order, from one state to another.
pub data Schedule : List Event → Owner → Owner → Type 0 where
  idle : {s : Owner} → Schedule [] s s
  first :
      {s t u : Owner} {es : List Event} (e : Event)
      → step e s ≡ some t
      → Schedule es t u
      → Schedule (e ∷ es) s u

begin_task-rank :
    (b : Bool) (s : Owner)
    → ((begin_task b s).stop_event ≡ s.stop_event) × (rank (begin_task b s).phase < 4)
unfolding begin_task rank
begin_task-rank true s = (refl, omega arith)
begin_task-rank false s = (refl, omega arith)

-- A step of the task takes it nearer to its end.
task_step-rank :
    (e : Event) (p : Phase) (s t : Owner)
    → task_step e p s ≡ some t
    → (t.stop_event ≡ s.stop_event) × (rank t.phase < rank p)
unfolding task_step leave rank
task_step-rank begin created s t h =
    let q : begin_task s.cancelling s ≡ t = cc in rw (← q) (begin_task-rank s.cancelling s)
task_step-rank enters_context entering s t h = ground arith
task_step-rank enter_raises entering s t h = ground arith
task_step-rank enter_cancelled entering s t h = ground arith
task_step-rank stops serving s t h = ground arith
task_step-rank serve_cancelled serving s t h = ground arith
task_step-rank exit_returns (exiting ending) s t h = ground arith
task_step-rank exit_raises (exiting ending) s t h = ground arith
task_step-rank _ _ s t h = cc

stop_task-phase :
    (p : Phase) (s t : Owner) → stop_task p s ≡ some t → (t.stop_event ≡ true) × (t.phase ≡ s.phase)
unfolding stop_task
stop_task-phase not_started s t h = cc
stop_task-phase created s t h = ground arith
stop_task-phase entering s t h = ground arith
stop_task-phase serving s t h = ground arith
stop_task-phase (exiting ending) s t h = ground arith
stop_task-phase (done ending) s t h = ground arith

cancel_task-phase :
    (p : Phase) (s t : Owner)
    → cancel_task p s ≡ some t
    → (t.stop_event ≡ s.stop_event) × (t.phase ≡ s.phase)
unfolding cancel_task
cancel_task-phase not_started s t h = cc
cancel_task-phase created s t h = ground arith
cancel_task-phase entering s t h = ground arith
cancel_task-phase serving s t h = ground arith
cancel_task-phase (exiting ending) s t h = ground arith
cancel_task-phase (done ending) s t h = cc

start_task-not_started : (p : Phase) (s t : Owner) → start_task p s ≡ some t → p ≡ not_started
unfolding start_task
start_task-not_started not_started s t h = refl
start_task-not_started _ s t h = cc

same_rank : {p q : Phase} → p ≡ q → 0 + rank p ≤ rank q
same_rank e = rw e (omega arith)

-- No step goes back, and none takes the stop event away.
step-Nearer :
    (e : Event) (s t : Owner)
    → s.phase ≢ not_started
    → s.stop_event ≡ true
    → step e s ≡ some t
    → Nearer e s t
unfolding step
step-Nearer start s t on stop h = absurd (on (start_task-not_started s.phase s t h))
step-Nearer request_stop s t on stop h =
    let (q, p) = stop_task-phase s.phase s t h in (q ∙ sym stop, same_rank p)
step-Nearer request_cancel s t on stop h =
    let (q, p) = cancel_task-phase s.phase s t h in (q, same_rank p)
step-Nearer begin s t on stop h =
    let (q, r) = task_step-rank begin s.phase s t h in (q, omega arith)
step-Nearer enters_context s t on stop h =
    let (q, r) = task_step-rank enters_context s.phase s t h in (q, omega arith)
step-Nearer enter_raises s t on stop h =
    let (q, r) = task_step-rank enter_raises s.phase s t h in (q, omega arith)
step-Nearer enter_cancelled s t on stop h =
    let (q, r) = task_step-rank enter_cancelled s.phase s t h in (q, omega arith)
step-Nearer stops s t on stop h =
    let (q, r) = task_step-rank stops s.phase s t h in (q, omega arith)
step-Nearer serve_cancelled s t on stop h =
    let (q, r) = task_step-rank serve_cancelled s.phase s t h in (q, omega arith)
step-Nearer exit_returns s t on stop h =
    let (q, r) = task_step-rank exit_returns s.phase s t h in (q, omega arith)
step-Nearer exit_raises s t on stop h =
    let (q, r) = task_step-rank exit_raises s.phase s t h in (q, omega arith)

-- The task can take a step of its own.
pub record Advances (s : Owner) : Type 0 where
  pub event : Event
  pub after : Owner
  pub taken : step event s ≡ some after
  pub is_own : own event ≡ 1

advances :
    (e : Event) (p : Phase) (s t : Owner)
    → s.phase ≡ p
    → task_step e p s ≡ some t
    → step e s ≡ task_step e s.phase s
    → own e ≡ 1
    → Advances s
advances e p s t q h k o = record {
  event = e;
  after = t;
  taken = k ∙ ap (λ x. task_step e x s) q ∙ h;
  is_own = o;
}

can_advance :
    (p : Phase) (s : Owner)
    → s.phase ≡ p
    → p ≢ not_started
    → s.stop_event ≡ true
    → (is_done s.phase ≡ true) ⊎ Advances s
unfolding step task_step leave is_done
can_advance not_started s q on stop = absurd (on refl)
can_advance created s q on stop = inr (advances begin created s _ q refl refl refl)
can_advance entering s q on stop = inr (advances enter_raises entering s _ q refl refl refl)
can_advance serving s q on stop =
    inr (advances stops serving s (leave finished s) q (rw stop refl) refl refl)
can_advance (exiting ending) s q on stop =
    inr (advances exit_returns (exiting ending) s _ q refl refl refl)
can_advance (done ending) s q on stop = inl (rw q refl)

-- The rank of a task that was created.
created_rank : (p : Phase) → p ≢ not_started → rank p ≤ 4
unfolding rank
created_rank not_started on = absurd (on refl)
created_rank created on = omega arith
created_rank entering on = omega arith
created_rank serving on = omega arith
created_rank (exiting ending) on = omega arith
created_rank (done ending) on = omega arith

rank_created : (p : Phase) → rank p ≤ 4 → p ≢ not_started
unfolding rank
rank_created p h e = absurd (not_four (rw e at h))
  where
    not_four : rank not_started ≤ 4 → ⊥
    not_four k = omega arith

Schedule-ends :
    {es : List Event} {s t : Owner}
    → s.phase ≢ not_started
    → s.stop_event ≡ true
    → Schedule es s t
    → (own_steps es + rank t.phase ≤ rank s.phase) × (t.phase ≢ not_started) × (t.stop_event ≡ true)
Schedule-ends on stop idle = (omega arith, on, stop)
Schedule-ends {s = s} on stop (first {t = t} e h rest) =
    let (q, r) = step-Nearer e s t on stop h in
    let on' : t.phase ≢ not_started =
      rank_created t.phase (let k = created_rank s.phase on in omega arith) in
    let (r', on'', stop') = Schedule-ends on' (q ∙ stop) rest in (omega arith, on'', stop')

-- Once the task was created and the stop event is set, then in every schedule of steps of the task
-- and of its callers the task takes at most four steps of its own, and it is done after it or can
-- take another.
pub close_ends :
    (es : List Event) (s t : Owner)
    → s.phase ≢ not_started
    → s.stop_event ≡ true
    → Schedule es s t
    → (own_steps es ≤ 4) × ((is_done t.phase ≡ true) ⊎ Advances t)
close_ends es s t on stop h =
    let (r, on', stop') = Schedule-ends on stop h in
    let k = created_rank s.phase on in (omega arith, can_advance t.phase t refl on' stop')
