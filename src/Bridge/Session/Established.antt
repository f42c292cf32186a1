-- ===== src/Bridge/Session/Established.antt =====
-- What `_ensure_session_locked` has done when it returns a session (bridge/server.py).
use stavrobot_imcp_plugin.Prelude.{
  ℕ, ◌≡◌, refl, ◌⊎◌, inl, inr, Bool, true, false, Option, some, if◌then◌else◌,
}
use stavrobot_imcp_plugin.Bridge.Effects.{
  Exc, session_unavailable, Outcome, ok, raised, World, Env, raise, catch,
}
use stavrobot_imcp_plugin.Bridge.Effects.Triples.{Triple, Triple-bind, Triple-catch}
use stavrobot_imcp_plugin.Bridge.Session.{
  Config, is_cancelled, owner_entered, close_session_locked, make_owner, connect, reconnect,
  ensure_session_locked, reuse, not_made, not_connected,
}
use stavrobot_imcp_plugin.Bridge.Session.Setup.{IsDown, IsSettled, UpOr}
use stavrobot_imcp_plugin.Bridge.Session.Lifecycle.{ensure_session_locked_lem}
use stavrobot_imcp_plugin.Bridge.Session.Initialized.{
  IsOpened, IsInitialized, OnReturn, Everywhere, raises, anything, wait_ready-IsOpened,
  initialize-IsInitialized,
}

module _ (env : Env) (config : Config) where
  connect-IsInitialized :
      (deadline : Option ℕ) (id : ℕ)
      → Triple Everywhere (connect env config deadline id) (OnReturn (λ s w. IsInitialized env s w))
  unfolding connect
  connect-IsInitialized deadline id =
      Triple-bind (λ r. Everywhere) _ _ _ (anything _)
        (λ setup.
          Triple-bind (OnReturn (λ s w. IsOpened env s w)) _ _ _
            (wait_ready-IsOpened env config id setup)
            (λ s. record {
              at = λ w h.
                  (initialize-IsInitialized env config deadline s).at
                    (record w {
                      service = record w.service {
                        session = some s;
                        last_app_reachable = some true;
                      };
                    })
                    (record {
                      past = h.past;
                      opened_at = h.opened_at;
                      setup = h.setup;
                      history = h.history;
                      entered = h.entered;
                    });
            })
            (λ e w h. tt))
        (λ e w h. tt)

  raises_either :
      (b : Bool) (e e' : Exc)
      → Triple Everywhere
          (if b then raise {A = ℕ} e else raise {A = ℕ} e')
          (OnReturn (λ s w. IsInitialized env s w))
  raises_either true e e' = raises _ e
  raises_either false e e' = raises _ e'

  not_connected-raises :
      (e : Exc)
      → Triple Everywhere (not_connected env config e) (OnReturn (λ s w. IsInitialized env s w))
  unfolding not_connected
  not_connected-raises e = record {
    at = λ w h.
        (Triple-bind {P = Everywhere} (λ r. Everywhere) (OnReturn (λ s w. IsInitialized env s w))
            (close_session_locked env config) _ (anything _)
            (λ _. raises_either (is_cancelled e) e (session_unavailable (owner_entered w)))
            (λ e w h. tt)).at
          (record w { service = record w.service { last_app_reachable = some (owner_entered w) } })
          tt;
  }

  reconnect-IsInitialized :
      (deadline : Option ℕ)
      → Triple Everywhere (reconnect env config deadline) (OnReturn (λ s w. IsInitialized env s w))
  unfolding reconnect
  reconnect-IsInitialized deadline =
      Triple-bind (λ r. Everywhere) _ _ _ (anything _)
        (λ _. record {
          at = λ w h.
              (Triple-bind {P = Everywhere} (λ r. Everywhere)
                  (OnReturn (λ s w. IsInitialized env s w))
                  (catch (make_owner env config deadline) (not_made env config))
                  (λ id. catch (connect env config deadline id) (not_connected env config))
                  (anything _)
                  (λ id.
                    Triple-catch (OnReturn (λ s w. IsInitialized env s w)) _ _ _
                      (connect-IsInitialized deadline id)
                      (λ e. record { at = (not_connected-raises e).at }) (λ s w h. h))
                  (λ e w h. tt)).at
                (record w { service = record w.service { session_known_dead = false } }) tt;
        })
        (λ e w h. tt)

-- The session was kept and is not marked dead, and nothing was done, or it is a new one.
abbrev pub IsEstablished : Env → World → Outcome ℕ → World → Type 0
IsEstablished env w (ok s) v =
    ((w.session ≡ some s) × (w.session_known_dead ≡ false) × (v ≡ w)) ⊎ IsInitialized env s v
IsEstablished env w (raised e) v = Unit

new_session :
    (env : Env) (w : World) (r : Outcome ℕ) (v : World)
    → OnReturn (λ s w. IsInitialized env s w) r v
    → IsEstablished env w r v
new_session env w (ok s) v h = inr h
new_session env w (raised e) v h = tt

reuse-IsEstablished :
    (env : Env) (config : Config) (deadline : Option ℕ) (session : Option ℕ) (dead : Bool)
    (w : World)
    → w.session ≡ session
    → w.session_known_dead ≡ dead
    → IsEstablished env w
        (reuse env config deadline session dead w).0
        (reuse env config deadline session dead w).1
unfolding reuse
reuse-IsEstablished env config deadline (some s) false w e d = inl (e, d, refl)
reuse-IsEstablished env config deadline _ _ w e d =
    new_session env w _ _ ((reconnect-IsInitialized env config deadline).at w tt)

-- From any settled world, one where nothing is open and no session is kept or where the kept session
-- is the only one open, and whatever the environment does: if `_ensure_session_locked` returns a
-- session, that session is kept and the only one open, and either it was kept before, not marked
-- dead, and nothing was done, or the last two things that happened are that its context was opened
-- and that it was initialized, each answered without an exception within its timeout; if it raises,
-- nothing is open and nothing is kept.
pub ensure_session_locked-IsEstablished :
    (env : Env) (config : Config) (deadline : Option ℕ) (w : World)
    → IsSettled w
    → UpOr IsDown
        (ensure_session_locked env config deadline w).0
        (ensure_session_locked env config deadline w).1
      × IsEstablished env w
          (ensure_session_locked env config deadline w).0
          (ensure_session_locked env config deadline w).1
unfolding ensure_session_locked
ensure_session_locked-IsEstablished env config deadline w h = (
  (ensure_session_locked_lem env config deadline).at w h,
  reuse-IsEstablished env config deadline w.session w.session_known_dead w refl refl,
)
