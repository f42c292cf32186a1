-- ===== src/Bridge/Session/Lifecycle.antt =====
-- The life cycle of contexts: `_ensure_session_locked` and what it calls (bridge/server.py).
use mathlib.Core.Path.{subst, ◌∙◌}
use mathlib.Core.Option.{some-injective, some-ne-none}
use stavrobot_imcp_plugin.Prelude.{
  ℕ, ◌≡◌, refl, sym, ◌⊎◌, inl, inr, Bool, true, false, Option, some, arith, if◌then◌else◌,
}
use stavrobot_imcp_plugin.Bridge.Effects.{Exc, session_unavailable, ok, World, Env, raise, catch}
use stavrobot_imcp_plugin.Bridge.Effects.Triples.{Triple, Triple-bind, Triple-catch}
use stavrobot_imcp_plugin.Bridge.Session.{
  Config, is_cancelled, owner_entered, close_session_locked, make_owner, connect, reconnect,
  ensure_session_locked, reuse, mark_session_dead_locked, close_service, not_made, not_connected,
}
use stavrobot_imcp_plugin.Bridge.Session.Setup.{
  IsDown, IsUp, IsSettled, IsRetired, UpOr, IsCovered, close_session_locked-IsDown, IsUp-IsCovered,
  IsDown-IsCovered, known_dead-close, reachable-close, ok-close, MadeOr, make_owner_lem,
  connect_lem,
}

module _ (env : Env) (config : Config) where
  not_made-IsDown : (e : Exc) → Triple IsDown (not_made env config e) (MadeOr env config)
  unfolding not_made
  not_made-IsDown e = record { at = λ w h. ground arith }

  raise_either :
      (b : Bool) (e e' : Exc)
      → Triple IsDown (if b then raise {A = ℕ} e else raise {A = ℕ} e') (UpOr IsDown)
  raise_either true e e' = record { at = λ w h. h }
  raise_either false e e' = record { at = λ w h. h }

  not_connected_lem : (e : Exc) → Triple IsCovered (not_connected env config e) (UpOr IsDown)
  unfolding not_connected
  not_connected_lem e = record {
    at = λ w h.
        (Triple-bind {P = IsCovered} (λ r w. IsDown w) (UpOr IsDown)
            (close_session_locked env config) _
            (record { at = close_session_locked-IsDown env config })
            (λ _. raise_either (is_cancelled e) e (session_unavailable (owner_entered w)))
            (λ e w h. h)).at
          (record w { service = record w.service { last_app_reachable = some (owner_entered w) } })
          (record { safe = h.safe; covered = h.covered });
  }

  reconnect_lem :
      (deadline : Option ℕ) → Triple IsCovered (reconnect env config deadline) (UpOr IsDown)
  unfolding reconnect
  reconnect_lem deadline =
      Triple-bind (λ r w. IsDown w) (UpOr IsDown) _ _
        (record { at = close_session_locked-IsDown env config })
        (λ _. record {
          at = λ w h.
              (Triple-bind {P = λ w. IsDown w × (w.session_known_dead ≡ false)} (MadeOr env config)
                  (UpOr IsDown) (catch (make_owner env config deadline) (not_made env config))
                  (λ id. catch (connect env config deadline id) (not_connected env config))
                  (Triple-catch (MadeOr env config) (MadeOr env config) _ _
                    (record { at = λ w h. make_owner_lem env config deadline w h.0 h.1 })
                    not_made-IsDown (λ a w h. h))
                  (λ id.
                    Triple-catch (UpOr IsCovered) (UpOr IsDown) _ _
                      (connect_lem env config deadline id) not_connected_lem (λ s w h. h))
                  (λ e w h. h)).at
                (record w { service = record w.service { session_known_dead = false } })
                (
                  record {
                    safe = h.safe;
                    no_owner = h.no_owner;
                    no_session = h.no_session;
                    none_live = h.none_live;
                  },
                  refl,
                );
        })
        (λ e w h. h)

  reuse_lem :
      (deadline : Option ℕ) (session : Option ℕ) (dead : Bool) (w : World)
      → w.session ≡ session
      → w.session_known_dead ≡ dead
      → IsDown w ⊎ ((s : ℕ) × IsUp s w)
      → UpOr IsDown
          (reuse env config deadline session dead w).0
          (reuse env config deadline session dead w).1
  unfolding reuse
  reuse_lem deadline (some s) false w e d (inl h) = absurd (some-ne-none s (sym e ∙ h.no_session))
  reuse_lem deadline (some s) false w e d (inr (t, h)) =
      subst (λ k. IsUp k w) (some-injective t s (sym h.session_is ∙ e)) h
  reuse_lem deadline _ _ w e d (inl h) =
      (reconnect_lem deadline).at w (IsDown-IsCovered env config h)
  reuse_lem deadline _ _ w e d (inr (t, h)) =
      (reconnect_lem deadline).at w (IsUp-IsCovered env config h)

  pub ensure_session_locked_lem :
      (deadline : Option ℕ)
      → Triple IsSettled (ensure_session_locked env config deadline) (UpOr IsDown)
  unfolding ensure_session_locked
  ensure_session_locked_lem deadline = record {
    at = λ w h. reuse_lem deadline w.session w.session_known_dead w refl refl h;
  }

  pub mark_session_dead_locked_lem :
      Triple IsCovered (mark_session_dead_locked env config) (λ r w. IsRetired w × (r ≡ ok tt))
  unfolding mark_session_dead_locked
  mark_session_dead_locked_lem = record {
    at = λ w h.
        let v : World = record w {
          service = record w.service { session_known_dead = true; last_app_reachable = some false };
        } in
        (
          record {
            down =
                close_session_locked-IsDown env config v
                  (record { safe = h.safe; covered = h.covered });
            known_dead = known_dead-close env config v;
            unreachable = reachable-close env config v;
          },
          ok-close env config v,
        );
  }

  pub IsSettled-IsCovered : {w : World} → IsSettled w → IsCovered w
  IsSettled-IsCovered (inl h) = IsDown-IsCovered env config h
  IsSettled-IsCovered (inr (s, h)) = IsUp-IsCovered env config h

  pub close_service_lem : Triple IsSettled (close_service env config) (λ r w. IsRetired w)
  unfolding close_service
  close_service_lem =
      Triple-bind (λ r w. IsDown w × (r ≡ ok tt)) (λ r w. IsRetired w) _ _
        (record {
          at = λ w h. (
            close_session_locked-IsDown env config w (IsSettled-IsCovered h),
            ok-close env config w,
          );
        })
        (λ _. record {
          at = λ w h. record {
            down = record {
              safe = h.0.safe;
              no_owner = h.0.no_owner;
              no_session = h.0.no_session;
              none_live = h.0.none_live;
            };
            known_dead = refl;
            unreachable = refl;
          };
        })
        (λ e w h. cc h.1)

-- From any settled world, `close` of the service retires the session: nothing is open, it is marked
-- dead, and the app counts as unreachable.
pub close_service-IsRetired :
    (env : Env) (config : Config) (w : World)
    → IsSettled w
    → IsRetired (close_service env config w).1
close_service-IsRetired env config w h = (close_service_lem env config).at w h

-- From any world whose open context, if any, belongs to the kept owner, `_mark_session_dead_locked`
-- retires the session and raises nothing.
pub mark_session_dead_locked-IsRetired :
    (env : Env) (config : Config) (w : World)
    → IsCovered w
    → IsRetired (mark_session_dead_locked env config w).1
      × ((mark_session_dead_locked env config w).0 ≡ ok tt)
mark_session_dead_locked-IsRetired env config w h = (mark_session_dead_locked_lem env config).at w h
