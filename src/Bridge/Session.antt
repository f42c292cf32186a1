-- ===== src/Bridge/Session.antt =====
-- The session life cycle of `BridgeService` (bridge/server.py): `_close_session_locked`,
-- `_ensure_session_locked`, `_mark_session_dead_locked`, with `_SessionOwner.wait_ready` and
-- `_SessionOwner.close` as the service sees them.
pub mod Setup
pub mod Lifecycle
pub mod Quiet
pub mod Deadlines
pub mod Initialized
pub mod Established
use stavrobot_imcp_plugin.Prelude.{
  ℕ, ◌+◌, ◌*◌, Text, Bool, true, false, Option, none, some, List, suc, leb, min, if◌then◌else◌,
}
use stavrobot_imcp_plugin.Bridge.Effects.{
  Exc, timeout_error, cancelled_error, mcp_error, session_unavailable, failure, Outcome, ok, raised,
  Owner, Service, Event, made, awaited, opened, initialized, closed, World, Answer, Candidate,
  ready, awaitable, raises, Entry, Env, M, pure, raise, ◌>>=◌, ◌>>◌, catch, gets, modify_service,
  emit, sleep, await_bounded, bounded_phase_timeout,
}

-- The fields of `BridgeService` that do not change.
pub record Config : Type 0 where
  pub allowlist : List Text
  pub call_timeout : ℕ
  pub discovery_timeout : ℕ
  pub connect_timeout : ℕ
  pub setup_timeout : ℕ
  pub close_timeout : ℕ

abbrev pub derived_setup_timeout : ℕ → ℕ → ℕ
derived_setup_timeout discovery connect = discovery * 2 + connect

abbrev owner_entered : World → Bool
owner_entered w = elim w.session_owner [ none ↦ false | some o ↦ o.entered ]

set_owner : Option Owner → M (Unit {0})
unfolding modify_service
set_owner o = modify_service (λ s. record s { session_owner = o })

set_session : Option ℕ → M (Unit {0})
unfolding modify_service
set_session s' = modify_service (λ s. record s { session = s' })

set_known_dead : Bool → M (Unit {0})
unfolding modify_service
set_known_dead b = modify_service (λ s. record s { session_known_dead = b })

set_reachable : Option Bool → M (Unit {0})
unfolding modify_service
set_reachable r = modify_service (λ s. record s { last_app_reachable = r })

-- Whether the context was entered when the wait for it ended by itself.
entered_by : Bool → Outcome Unit → Bool
entered_by late (ok _) = true
entered_by late (raised cancelled_error) = late
entered_by late (raised _) = false

entered_after : Entry → ℕ → Bool
unfolding entered_by
entered_after entry timeout =
    if leb entry.answer.took timeout then entered_by entry.late entry.answer.result else entry.late

is_cancelled : Exc → Bool
is_cancelled cancelled_error = true
is_cancelled _ = false

module _ (env : Env) (config : Config) where
  -- `_SessionOwner.close`, which waits for the owner's task within the close timeout.
  close_owner : Owner → M (Unit {0})
  unfolding ◌>>=◌ emit gets sleep
  close_owner owner =
      if owner.started
      then (do
        emit (closed owner.id)
        h ← gets (λ w. w.history)
        sleep (min (env.exit h) config.close_timeout))
      else pure tt

  close_if : Option Owner → M (Unit {0})
  unfolding close_owner
  close_if none = pure tt
  close_if (some owner) = close_owner owner

  -- What `owner.close()` raises is suppressed, a cancellation too.
  pub close_session_locked : M (Unit {0})
  unfolding ◌>>=◌ gets set_owner set_session close_if
  close_session_locked = do
    owner ← gets (λ w. w.session_owner)
    set_owner none
    set_session none
    close_if owner

  -- `_SessionOwner.wait_ready`: start the task that enters the context, and wait for it.
  pub wait_ready : ℕ → ℕ → M ℕ
  unfolding ◌>>=◌ gets set_owner emit catch entered_after close_owner await_bounded
  wait_ready id timeout = do
    set_owner (some (record { id = id; started = true; entered = false }))
    now ← gets (λ w. w.clock)
    emit (opened id now timeout)
    h ← gets (λ w. w.history)
    let owner : Owner = record {
      id = id;
      started = true;
      entered = entered_after (env.enter h) timeout;
    }
    set_owner (some owner)
    catch (await_bounded (env.enter h).answer timeout) (λ e. do close_owner owner; raise e)
    pure id

  -- The wait for a candidate that is awaitable.
  await_candidate : Option ℕ → Candidate → M (Unit {0})
  unfolding ◌>>=◌ gets emit bounded_phase_timeout await_bounded
  await_candidate deadline ready = pure tt
  await_candidate deadline (raises e) = raise e
  await_candidate deadline (awaitable answer) = do
    timeout ← bounded_phase_timeout config.setup_timeout deadline
    now ← gets (λ w. w.clock)
    emit (awaited now timeout)
    await_bounded answer timeout

  next_context : M ℕ
  unfolding ◌>>=◌ gets emit
  next_context = do
    id ← gets (λ w. w.made_contexts)
    λ w. (ok tt, record w { made_contexts = suc w.made_contexts })
    emit (made id)
    pure id

  -- The first `try` of `_ensure_session_locked`: a new context and its owner.
  pub make_owner : Option ℕ → M ℕ
  unfolding ◌>>=◌ gets next_context await_candidate set_owner
  make_owner deadline = do
    id ← next_context
    h ← gets (λ w. w.history)
    await_candidate deadline (env.factory h)
    set_owner (some (record { id = id; started = false; entered = false }))
    pure id

  -- The last part of the second `try`: `session.initialize()`.
  pub initialize_session : Option ℕ → ℕ → M ℕ
  unfolding ◌>>=◌ gets emit
  initialize_session deadline session = do
    timeout ← bounded_phase_timeout config.call_timeout deadline
    now ← gets (λ w. w.clock)
    emit (initialized session now timeout)
    h ← gets (λ w. w.history)
    await_bounded (env.initialize h) timeout
    pure session

  -- The second `try`: enter the context, and initialize the session.
  pub connect : Option ℕ → ℕ → M ℕ
  unfolding ◌>>=◌ set_session set_reachable
  connect deadline id = do
    setup ← bounded_phase_timeout config.setup_timeout deadline
    session ← wait_ready id setup
    set_session (some session)
    set_reachable (some true)
    initialize_session deadline session

  not_made : Exc → M ℕ
  unfolding is_cancelled set_reachable ◌>>=◌
  not_made e =
      if is_cancelled e
      then raise e
      else (do set_reachable (some false); raise (session_unavailable false))

  not_connected : Exc → M ℕ
  unfolding is_cancelled set_reachable gets ◌>>=◌
  not_connected e = do
    entered ← gets owner_entered
    set_reachable (some entered)
    close_session_locked
    if is_cancelled e then raise e else raise (session_unavailable entered)

  reconnect : Option ℕ → M ℕ
  unfolding ◌>>=◌ set_known_dead
  reconnect deadline = do
    close_session_locked
    set_known_dead false
    id ← catch (make_owner deadline) not_made
    catch (connect deadline id) not_connected

  reuse : Option ℕ → Option ℕ → Bool → M ℕ
  reuse deadline (some session) false = pure session
  reuse deadline _ _ = reconnect deadline

  pub ensure_session_locked : Option ℕ → M ℕ
  unfolding ◌>>=◌ gets reuse
  ensure_session_locked deadline = do
    session ← gets (λ w. w.session)
    dead ← gets (λ w. w.session_known_dead)
    reuse deadline session dead

  pub mark_session_dead_locked : M (Unit {0})
  unfolding ◌>>=◌ set_known_dead set_reachable close_session_locked
  mark_session_dead_locked = do
    set_known_dead true
    set_reachable (some false)
    close_session_locked

  -- `BridgeService.close`.
  pub close_service : M (Unit {0})
  unfolding ◌>>=◌ set_known_dead set_reachable close_session_locked
  close_service = do close_session_locked; set_known_dead true; set_reachable (some false)
