-- ===== src/Bridge/Session/Quiet.antt =====
-- The session life cycle (bridge/server.py) and the properties that only requests change.
use stavrobot_imcp_plugin.Prelude.{ℕ, suc, ◌+◌, ◌≡◌, Bool, true, false, Option, none, some, ◌∷◌}
use stavrobot_imcp_plugin.Bridge.Effects.{
  Exc, ok, Owner, Service, Event, called, listed, World, Answer, Candidate, ready, awaitable,
  raises, Env, modify_service, emit, sleep, await_bounded,
}
use stavrobot_imcp_plugin.Bridge.Effects.Keeps.{
  Keeps, keeps_rules, await_bounded-Keeps, bounded_phase_timeout-Keeps,
}
use stavrobot_imcp_plugin.Bridge.Session.{
  Config, set_session, set_reachable, close_owner, close_if, close_session_locked, wait_ready,
  await_candidate, next_context, make_owner, initialize_session, connect, not_made, not_connected,
  reconnect, reuse, ensure_session_locked, mark_session_dead_locked,
}

-- An event that is no request.
abbrev pub is_setup : Event → Bool
is_setup (called _ _ _ _ _) = false
is_setup (listed _ _ _ _) = false
is_setup _ = true

-- A property of the history that only requests change.
pub record IsQuiet (P : World → Type 0) : Type 0 where
  pub same_history :
      (w : World) (s : Service) (c m : ℕ)
      → P w
      → P (record { service = s; clock = c; made_contexts = m; history = w.history })
  pub setup :
      (w : World) (e : Event) → is_setup e ≡ true → P w → P (record w { history = e ∷ w.history })

module _ (env : Env) (config : Config) {P : World → Type 0} (quiet : IsQuiet P) where
  sleep-Keeps : (n : ℕ) → Keeps P (sleep n)
  unfolding sleep
  sleep-Keeps n = record {
    at = λ w h. quiet.same_history w w.service (w.clock + n) w.made_contexts h;
  }

  modify-Keeps : (f : Service → Service) → Keeps P (modify_service f)
  unfolding modify_service
  modify-Keeps f = record {
    at = λ w h. quiet.same_history w (f w.service) w.clock w.made_contexts h;
  }

  emit-Keeps : (e : Event) → is_setup e ≡ true → Keeps P (emit e)
  unfolding emit
  emit-Keeps e s = record { at = λ w h. quiet.setup w e s h }

  await-Keeps :
      {A : Type 0} (answer : Answer A) (timeout : ℕ) → Keeps P (await_bounded answer timeout)
  await-Keeps = await_bounded-Keeps sleep-Keeps

  close_owner-Keeps : (o : Owner) → Keeps P (close_owner env config o)
  unfolding close_owner
  close_owner-Keeps o = search (keeps_rules, sleep-Keeps, emit-Keeps)

  close_if-Keeps : (o : Option Owner) → Keeps P (close_if env config o)
  unfolding close_if
  close_if-Keeps none = search keeps_rules
  close_if-Keeps (some o) = close_owner-Keeps o

  pub close_session_locked-Keeps : Keeps P (close_session_locked env config)
  unfolding close_session_locked
  close_session_locked-Keeps = search (keeps_rules, modify-Keeps, close_if-Keeps)

  wait_ready-Keeps : (id timeout : ℕ) → Keeps P (wait_ready env config id timeout)
  unfolding wait_ready
  wait_ready-Keeps id timeout =
      search (keeps_rules, modify-Keeps, emit-Keeps, close_owner-Keeps, await-Keeps) depth 12

  await_candidate-Keeps :
      (deadline : Option ℕ) (c : Candidate) → Keeps P (await_candidate env config deadline c)
  unfolding await_candidate
  await_candidate-Keeps deadline ready = search keeps_rules
  await_candidate-Keeps deadline (raises e) = search keeps_rules
  await_candidate-Keeps deadline (awaitable answer) =
      search (keeps_rules, bounded_phase_timeout-Keeps, emit-Keeps, await-Keeps) depth 12

  make_context-Keeps : Keeps P (λ w. (ok tt, record w { made_contexts = suc w.made_contexts }))
  make_context-Keeps = record {
    at = λ w h. quiet.same_history w w.service w.clock (suc w.made_contexts) h;
  }

  make_owner-Keeps : (deadline : Option ℕ) → Keeps P (make_owner env config deadline)
  unfolding make_owner next_context
  make_owner-Keeps deadline =
      search (keeps_rules, make_context-Keeps, emit-Keeps, await_candidate-Keeps, modify-Keeps)
        depth 12

  initialize_session-Keeps :
      (deadline : Option ℕ) (s : ℕ) → Keeps P (initialize_session env config deadline s)
  unfolding initialize_session
  initialize_session-Keeps deadline s =
      search (keeps_rules, bounded_phase_timeout-Keeps, emit-Keeps, await-Keeps) depth 12

  connect-Keeps : (deadline : Option ℕ) (id : ℕ) → Keeps P (connect env config deadline id)
  unfolding connect set_session set_reachable
  connect-Keeps deadline id =
      search
        (
          keeps_rules, bounded_phase_timeout-Keeps, wait_ready-Keeps, modify-Keeps,
          initialize_session-Keeps,
        )
        depth 12

  not_made-Keeps : (e : Exc) → Keeps P (not_made env config e)
  unfolding not_made
  not_made-Keeps e = search (keeps_rules, modify-Keeps)

  not_connected-Keeps : (e : Exc) → Keeps P (not_connected env config e)
  unfolding not_connected
  not_connected-Keeps e = search (keeps_rules, modify-Keeps, close_session_locked-Keeps) depth 12

  reconnect-Keeps : (deadline : Option ℕ) → Keeps P (reconnect env config deadline)
  unfolding reconnect
  reconnect-Keeps deadline =
      search
        (
          keeps_rules, close_session_locked-Keeps, modify-Keeps, make_owner-Keeps, not_made-Keeps,
          connect-Keeps, not_connected-Keeps,
        )
        depth 12

  reuse-Keeps :
      (deadline session : Option ℕ) (dead : Bool) → Keeps P (reuse env config deadline session dead)
  unfolding reuse
  reuse-Keeps deadline (some s) false = search keeps_rules
  reuse-Keeps deadline _ _ = reconnect-Keeps deadline

  pub ensure_session_locked-Keeps :
      (deadline : Option ℕ) → Keeps P (ensure_session_locked env config deadline)
  unfolding ensure_session_locked
  ensure_session_locked-Keeps deadline = search (keeps_rules, reuse-Keeps)

  pub mark_session_dead_locked-Keeps : Keeps P (mark_session_dead_locked env config)
  unfolding mark_session_dead_locked
  mark_session_dead_locked-Keeps = search (keeps_rules, modify-Keeps, close_session_locked-Keeps)

  pub sleep-quiet : (n : ℕ) → Keeps P (sleep n)
  sleep-quiet = sleep-Keeps
