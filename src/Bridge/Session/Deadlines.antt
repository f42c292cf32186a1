-- ===== src/Bridge/Session/Deadlines.antt =====
-- The deadline and the waits of the session life cycle (bridge/server.py).
use stavrobot_imcp_plugin.Prelude.{ℕ, suc, Bool, true, false, Option, none, some}
use stavrobot_imcp_plugin.Bridge.Effects.{
  Exc, ok, Owner, awaited, opened, initialized, History, Candidate, ready, awaitable, raises, Env,
  ◌>>=◌, gets, await_bounded, raise, pure, catch,
}
use stavrobot_imcp_plugin.Bridge.Effects.Deadlines.{
  OnTime, HasTime, OnTime-timed, HasTime-stamp, HasTime-modify, sleep-OnTime, modify-OnTime,
  closed-OnTime, made-OnTime, await-OnTime,
}
use stavrobot_imcp_plugin.Bridge.Effects.Keeps.{Keeps, keeps_rules}
use stavrobot_imcp_plugin.Bridge.Effects.Triples.{Triple, Triple-bind}
use stavrobot_imcp_plugin.Bridge.Session.{
  Config, set_owner, entered_after, set_session, set_reachable, close_owner, close_if,
  close_session_locked, wait_ready, await_candidate, next_context, make_owner, initialize_session,
  connect, not_made, not_connected, reconnect, reuse, ensure_session_locked,
  mark_session_dead_locked,
}

module _ (d : ℕ) (past : History) (env : Env) (config : Config) where
  close_owner-OnTime : (o : Owner) → Keeps (OnTime d past) (close_owner env config o)
  unfolding close_owner
  close_owner-OnTime o = search (keeps_rules, sleep-OnTime d past, closed-OnTime d past)

  close_if-OnTime : (o : Option Owner) → Keeps (OnTime d past) (close_if env config o)
  unfolding close_if
  close_if-OnTime none = search keeps_rules
  close_if-OnTime (some o) = close_owner-OnTime o

  close_session_locked-OnTime : Keeps (OnTime d past) (close_session_locked env config)
  unfolding close_session_locked
  close_session_locked-OnTime = search (keeps_rules, modify-OnTime d past, close_if-OnTime)

  -- What `wait_ready` does once its wait has begun.
  rest_of_wait-OnTime :
      (id timeout : ℕ)
      → Keeps (OnTime d past) (
          gets (λ w. w.history) >>= λ h.
          set_owner (
            some
              (record { id = id; started = true; entered = entered_after (env.enter h) timeout }))
          >>= λ _.
              catch (await_bounded (env.enter h).answer timeout) (λ e.
                close_owner env config (record {
                  id = id;
                  started = true;
                  entered = entered_after (env.enter h) timeout;
                })
                >>= λ _. raise e)
              >>= λ _. pure id)
  unfolding set_owner
  rest_of_wait-OnTime id timeout =
      search (keeps_rules, modify-OnTime d past, close_owner-OnTime, await-OnTime d past) depth 12

  wait_ready-OnTime :
      (id timeout : ℕ)
      → Triple (HasTime d past timeout) (wait_ready env config id timeout) (λ r w. OnTime d past w)
  unfolding wait_ready set_owner
  wait_ready-OnTime id timeout =
      HasTime-modify d past
        (λ s. record s {
          session_owner = some (record { id = id; started = true; entered = false });
        })
        timeout _
        (HasTime-stamp d past (opened id) timeout _ (λ now h. h) (rest_of_wait-OnTime id timeout))

  await_candidate-OnTime :
      (c : Candidate) → Keeps (OnTime d past) (await_candidate env config (some d) c)
  unfolding await_candidate
  await_candidate-OnTime ready = search keeps_rules
  await_candidate-OnTime (raises e) = search keeps_rules
  await_candidate-OnTime (awaitable answer) = OnTime-timed d past config.setup_timeout _ (λ timeout.
      HasTime-stamp d past awaited timeout _ (λ now h. h) (await-OnTime d past answer timeout))

  make_context-OnTime :
      Keeps (OnTime d past) (λ w. (ok tt, record w { made_contexts = suc w.made_contexts }))
  make_context-OnTime = record { at = λ w h. h }

  make_owner-OnTime : Keeps (OnTime d past) (make_owner env config (some d))
  unfolding make_owner next_context set_owner
  make_owner-OnTime =
      search
        (
          keeps_rules,
          make_context-OnTime,
          made-OnTime d past,
          await_candidate-OnTime,
          modify-OnTime d past,
        )
        depth 12

  rest_of_initialize-OnTime :
      (session timeout : ℕ)
      → Keeps (OnTime d past) (
          gets (λ w. w.history) >>= λ h.
          await_bounded (env.initialize h) timeout >>= λ _. pure session)
  rest_of_initialize-OnTime session timeout = search (keeps_rules, await-OnTime d past) depth 12

  initialize_session-OnTime :
      (session : ℕ) → Keeps (OnTime d past) (initialize_session env config (some d) session)
  unfolding initialize_session
  initialize_session-OnTime session = OnTime-timed d past config.call_timeout _ (λ timeout.
      HasTime-stamp d past (initialized session) timeout _ (λ now h. h)
        (rest_of_initialize-OnTime session timeout))

  rest_of_connect-OnTime :
      (session : ℕ)
      → Keeps (OnTime d past) (
          set_session (some session) >>= λ _.
          set_reachable (some true) >>= λ _. initialize_session env config (some d) session)
  unfolding set_session set_reachable
  rest_of_connect-OnTime session =
      search (keeps_rules, modify-OnTime d past, initialize_session-OnTime) depth 12

  connect-OnTime : (id : ℕ) → Keeps (OnTime d past) (connect env config (some d) id)
  unfolding connect
  connect-OnTime id = OnTime-timed d past config.setup_timeout _ (λ timeout.
      Triple-bind (λ r w. OnTime d past w) (λ r w. OnTime d past w) _ _
        (wait_ready-OnTime id timeout)
        (λ session. record { at = (rest_of_connect-OnTime session).at }) (λ e w h. h))

  not_made-OnTime : (e : Exc) → Keeps (OnTime d past) (not_made env config e)
  unfolding not_made set_reachable
  not_made-OnTime e = search (keeps_rules, modify-OnTime d past)

  not_connected-OnTime : (e : Exc) → Keeps (OnTime d past) (not_connected env config e)
  unfolding not_connected set_reachable
  not_connected-OnTime e =
      search (keeps_rules, modify-OnTime d past, close_session_locked-OnTime) depth 12

  reconnect-OnTime : Keeps (OnTime d past) (reconnect env config (some d))
  unfolding reconnect
  reconnect-OnTime =
      search
        (
          keeps_rules,
          close_session_locked-OnTime,
          modify-OnTime d past,
          make_owner-OnTime,
          not_made-OnTime,
          connect-OnTime,
          not_connected-OnTime,
        )
        depth 12

  reuse-OnTime :
      (session : Option ℕ) (dead : Bool)
      → Keeps (OnTime d past) (reuse env config (some d) session dead)
  unfolding reuse
  reuse-OnTime (some s) false = search keeps_rules
  reuse-OnTime _ _ = reconnect-OnTime

  pub ensure_session_locked-OnTime :
      Keeps (OnTime d past) (ensure_session_locked env config (some d))
  unfolding ensure_session_locked
  ensure_session_locked-OnTime = search (keeps_rules, reuse-OnTime)

  pub mark_session_dead_locked-OnTime : Keeps (OnTime d past) (mark_session_dead_locked env config)
  unfolding mark_session_dead_locked
  mark_session_dead_locked-OnTime =
      search (keeps_rules, modify-OnTime d past, close_session_locked-OnTime)
