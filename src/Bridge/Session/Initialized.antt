-- ===== src/Bridge/Session/Initialized.antt =====
-- How a context is entered and a session initialized in time (bridge/server.py).
use stavrobot_imcp_plugin.Prelude.{
  ℕ, ◌+◌, ◌≤◌, ◌≡◌, refl, inl, inr, Bool, true, Option, ◌∷◌, leb, arith, Bool-cases,
}
use stavrobot_imcp_plugin.Bridge.Effects.{
  Exc, Outcome, ok, raised, opened, initialized, History, World, Answer, Env, M, pure, raise, ◌>>◌,
  catch, await_bounded,
}
use stavrobot_imcp_plugin.Bridge.Effects.Triples.{
  Post, Triple, Triple-bind, Triple-catch, Triple-bounded_phase_timeout,
}
use stavrobot_imcp_plugin.Bridge.Session.{
  Config, close_owner, initialize_session, wait_ready, entered_after,
}

-- The awaitable gives a result within the timeout.
pub InTime : {A : Type 0} → Answer A → ℕ → Type 0
InTime {A} answer timeout = (a : A) × (answer.result ≡ ok a) × (answer.took ≤ timeout)

-- The last event is that the context of session `s` was opened, and it was entered in time.
pub record IsOpened (env : Env) (s : ℕ) (w : World) : Type 0 where
  pub past : History
  pub opened_at : ℕ
  pub setup : ℕ
  pub history : w.history ≡ opened s opened_at setup ∷ past
  pub entered : InTime (env.enter (opened s opened_at setup ∷ past)).answer setup

-- The last two events are that the context of session `s` was opened and that the session was
-- initialized, and both were answered in time.
pub record IsInitialized (env : Env) (s : ℕ) (w : World) : Type 0 where
  pub past : History
  pub opened_at : ℕ
  pub setup : ℕ
  pub initialized_at : ℕ
  pub timeout : ℕ
  pub history : w.history ≡ initialized s initialized_at timeout ∷ opened s opened_at setup ∷ past
  pub entered : InTime (env.enter (opened s opened_at setup ∷ past)).answer setup
  pub answered :
      InTime
        (env.initialize (initialized s initialized_at timeout ∷ opened s opened_at setup ∷ past))
        timeout

-- `P` of the value and the world, or an exception.
abbrev pub OnReturn : {A : Type 0} → (A → World → Type 0) → Post A
OnReturn P (ok a) w = P a w
OnReturn P (raised e) w = Unit

abbrev pub Everywhere : World → Type 0
Everywhere w = Unit

pub raises :
    {A : Type 0} {P : World → Type 0} (S : A → World → Type 0) (e : Exc)
    → Triple P (raise {A = A} e) (OnReturn S)
raises S e = record { at = λ w h. tt }

pub anything : {A : Type 0} {P : World → Type 0} (m : M A) → Triple P m (λ r. Everywhere)
anything m = record { at = λ w h. tt }

-- A bounded wait that returns was answered in time, and the history is what it was.
Triple-await :
    {A : Type 0} (h : History) (answer : Answer A) (timeout : ℕ)
    → Triple
        (λ w. w.history ≡ h)
        (await_bounded answer timeout)
        (OnReturn (λ a w. (w.history ≡ h) × InTime answer timeout))
unfolding await_bounded InTime
Triple-await {A = A} h answer timeout = record {
  at = λ w q. elim (Bool-cases (leb answer.took timeout)) [
    | inl e ↦
        rw e (
          completes answer.result refl (record w { clock = w.clock + answer.took }) q
            (ground arith))
    | inr e ↦ rw e tt
  ];
}
  where
    completes :
        (r : Outcome A)
        → answer.result ≡ r
        → (w : World) → w.history ≡ h
        → answer.took ≤ timeout
        → OnReturn (λ a w. (w.history ≡ h) × InTime answer timeout) r w
    completes (ok a) e w q le = (q, (a, e, le))
    completes (raised x) e w q le = tt

module _ (env : Env) (config : Config) where
  wait-InTime :
      (h : History) (id timeout : ℕ) (entered : Bool) (answer : Answer Unit)
      → Triple
          (λ w. w.history ≡ h)
          (catch (await_bounded answer timeout) (λ e.
              close_owner env config (record { id = id; started = true; entered = entered })
              >> raise {A = Unit {0}} e)
            >> pure id)
          (OnReturn (λ s w. (s ≡ id) × (w.history ≡ h) × InTime answer timeout))
  wait-InTime h id timeout entered answer =
      Triple-bind (OnReturn (λ a w. (w.history ≡ h) × InTime answer timeout)) _ _ _
        (Triple-catch (OnReturn (λ a w. (w.history ≡ h) × InTime answer timeout)) _ _ _
          (Triple-await h answer timeout)
          (λ e.
            Triple-bind {A = Unit {0}} (λ r. Everywhere) _
              (close_owner env config (record { id = id; started = true; entered = entered }))
              (λ _. raise e) (anything _) (λ _. raises _ e) (λ e w h. tt))
          (λ a w h. h))
        (λ a. record { at = λ w k. (refl, k.0, k.1) }) (λ e w h. tt)

  returned-IsOpened :
      (id timeout now : ℕ) (past : History) (r : Outcome ℕ) (w : World)
      → OnReturn
          (λ s w.
            (s ≡ id)
            × (w.history ≡ opened id now timeout ∷ past)
            × InTime (env.enter (opened id now timeout ∷ past)).answer timeout)
          r
          w
      → OnReturn (λ s w. IsOpened env s w) r w
  returned-IsOpened id timeout now past (ok s) w (e, q, k) = record {
    past = past;
    opened_at = now;
    setup = timeout;
    history = rw e q;
    entered = rw e k;
  }
  returned-IsOpened id timeout now past (raised x) w k = tt

  pub wait_ready-IsOpened :
      (id timeout : ℕ)
      → Triple Everywhere (wait_ready env config id timeout) (OnReturn (λ s w. IsOpened env s w))
  unfolding wait_ready
  wait_ready-IsOpened id timeout = record {
    at = λ w h. returned-IsOpened id timeout w.clock w.history _ _ (
        (wait-InTime (opened id w.clock timeout ∷ w.history) id timeout
            (entered_after (env.enter (opened id w.clock timeout ∷ w.history)) timeout)
            (env.enter (opened id w.clock timeout ∷ w.history)).answer).at
          _ refl);
  }

  pub initialize-IsInitialized :
      (deadline : Option ℕ) (s : ℕ)
      → Triple
          (IsOpened env s)
          (initialize_session env config deadline s)
          (OnReturn (λ s w. IsInitialized env s w))
  unfolding initialize_session
  initialize-IsInitialized deadline s =
      Triple-bind (λ r w. IsOpened env s w) _ _ _
        (Triple-bounded_phase_timeout config.call_timeout deadline)
        (λ timeout. record {
          at = λ w h.
              (Triple-bind
                  (OnReturn (λ a v.
                    (v.history ≡ initialized s w.clock timeout ∷ w.history)
                    × InTime (env.initialize (initialized s w.clock timeout ∷ w.history)) timeout))
                  (OnReturn (λ s w. IsInitialized env s w))
                  (await_bounded (env.initialize (initialized s w.clock timeout ∷ w.history))
                    timeout)
                  (λ _. pure s) (Triple-await (initialized s w.clock timeout ∷ w.history) _ timeout)
                  (λ a. record {
                    at = λ v k. record {
                      past = h.past;
                      opened_at = h.opened_at;
                      setup = h.setup;
                      initialized_at = w.clock;
                      timeout = timeout;
                      history = rw (← h.history) k.0;
                      entered = h.entered;
                      answered = rw (← h.history) k.1;
                    };
                  })
                  (λ e w h. tt)).at
                (record w { history = initialized s w.clock timeout ∷ w.history }) refl;
        })
        (λ e w h. tt)
