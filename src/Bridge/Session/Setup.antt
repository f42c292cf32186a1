-- ===== src/Bridge/Session/Setup.antt =====
-- The state of the session while a context is set up (bridge/server.py).
use mathlib.Core.Path.{subst}
use stavrobot_imcp_plugin.Prelude.{
  ℕ, ◌≡◌, refl, sym, ◌⊎◌, Bool, true, false, Option, none, some, List, [], ◌∷◌, arith, ◌==◌,
  if◌then◌else◌,
}
use stavrobot_imcp_plugin.Bridge.Effects.{
  Exc, Outcome, ok, raised, Owner, opened, initialized, called, listed, closed, History, World,
  Answer, Env, pure, raise, ◌>>◌, catch, await_bounded,
}
use stavrobot_imcp_plugin.Bridge.Effects.Triples.{
  Triple, Triple-bind, Triple-catch, Triple-await_bounded, Triple-bounded_phase_timeout,
}
use stavrobot_imcp_plugin.Bridge.Session.{
  Config, close_session_locked, make_owner, connect, initialize_session, wait_ready, close_owner,
  entered_after,
}

remove : ℕ → List ℕ → List ℕ
remove id [] = []
remove id (j ∷ ids) = let rest = remove id ids in if j == id then rest else j ∷ rest

-- The contexts that were opened and not told to exit, latest first.
unfoldable pub live : History → List ℕ
unfolding remove
live [] = []
live (opened id _ _ ∷ h) = id ∷ live h
live (closed id ∷ h) = remove id (live h)
live (_ ∷ h) = live h

-- A context is opened only while no other is, and a request goes to the one that is open.
abbrev pub IsSafe : History → Type 0
IsSafe [] = Unit
IsSafe (opened id _ _ ∷ h) = (live h ≡ []) × IsSafe h
IsSafe (called id _ _ _ _ ∷ h) = (live h ≡ id ∷ []) × IsSafe h
IsSafe (listed id _ _ _ ∷ h) = (live h ≡ id ∷ []) × IsSafe h
IsSafe (initialized id _ _ ∷ h) = (live h ≡ id ∷ []) × IsSafe h
IsSafe (_ ∷ h) = IsSafe h

-- Nothing is open, and no owner and no session is kept.
pub record IsDown (w : World) : Type 0 where
  pub safe : IsSafe w.history
  pub no_owner : w.session_owner ≡ none
  pub no_session : w.session ≡ none
  pub none_live : live w.history ≡ []

-- Session `s` is established, and its context is the one that is open.
pub record IsUp (s : ℕ) (w : World) : Type 0 where
  pub safe : IsSafe w.history
  pub owned : (o : Owner) × (w.session_owner ≡ some o) × (o.id ≡ s) × (o.started ≡ true)
  pub session_is : w.session ≡ some s
  pub one_live : live w.history ≡ s ∷ []
  pub not_dead : w.session_known_dead ≡ false

-- Between two operations.
abbrev pub IsSettled : World → Type 0
IsSettled w = IsDown w ⊎ ((s : ℕ) × IsUp s w)

-- The session is retired: nothing is open, and the app counts as unreachable.
pub record IsRetired (w : World) : Type 0 where
  pub down : IsDown w
  pub known_dead : w.session_known_dead ≡ true
  pub unreachable : w.last_app_reachable ≡ some false

-- An established session, or `P` after an exception.
abbrev pub UpOr : (World → Type 0) → Outcome ℕ → World → Type 0
UpOr P (ok s) w = IsUp s w
UpOr P (raised e) w = P w

abbrev Covered : Option Owner → List ℕ → Type 0
Covered none ids = ids ≡ []
Covered (some o) ids = (ids ≡ []) ⊎ ((o.started ≡ true) × (ids ≡ o.id ∷ []))

-- What is open, if anything, belongs to the owner.
pub record IsCovered (w : World) : Type 0 where
  pub safe : IsSafe w.history
  pub covered : Covered w.session_owner (live w.history)

module _ (env : Env) (config : Config) where
  pub close_session_locked-IsDown :
      (w : World) → IsCovered w → IsDown (close_session_locked env config w).1
  unfolding close_session_locked live
  close_session_locked-IsDown w h = ground arith

  pub IsUp-IsCovered : {s : ℕ} {w : World} → IsUp s w → IsCovered w
  IsUp-IsCovered h = record { safe = h.safe; covered = ground arith }

  pub IsDown-IsCovered : {w : World} → IsDown w → IsCovered w
  IsDown-IsCovered h = record { safe = h.safe; covered = ground arith }

  pub known_dead-close :
      (w : World) → (close_session_locked env config w).1.session_known_dead ≡ w.session_known_dead
  unfolding close_session_locked
  known_dead-close w = ground arith

  pub reachable-close :
      (w : World) → (close_session_locked env config w).1.last_app_reachable ≡ w.last_app_reachable
  unfolding close_session_locked
  reachable-close w = ground arith

  pub ok-close : (w : World) → (close_session_locked env config w).0 ≡ ok tt
  unfolding close_session_locked
  ok-close w = ground arith

  -- A new owner whose task has not started, with number `id`.
  abbrev IsMade : ℕ → World → Type 0
  IsMade id w =
      IsSafe w.history
      × (w.session_owner ≡ some (record { id = id; started = false; entered = false }))
      × (w.session ≡ none)
      × (live w.history ≡ [])
      × (w.session_known_dead ≡ false)

  abbrev pub MadeOr : Outcome ℕ → World → Type 0
  MadeOr (ok id) w = IsMade id w
  MadeOr (raised e) w = IsDown w

  pub make_owner_lem :
      (deadline : Option ℕ) (w : World)
      → IsDown w
      → w.session_known_dead ≡ false
      → MadeOr (make_owner env config deadline w).0 (make_owner env config deadline w).1
  unfolding make_owner live
  make_owner_lem none w h d = ground arith
  make_owner_lem (some t) w h d = ground arith

  abbrev IsOpen : ℕ → World → Type 0
  IsOpen id w =
      IsSafe w.history
      × ((o : Owner) × (w.session_owner ≡ some o) × (o.id ≡ id) × (o.started ≡ true))
      × (live w.history ≡ id ∷ [])
      × (w.session_known_dead ≡ false)

  abbrev OpenOr : ℕ → {A : Type 0} → Outcome A → World → Type 0
  OpenOr id (ok s) w = IsOpen id w
  OpenOr id (raised e) w = IsCovered w

  close_started :
      (id : ℕ) (entered : Bool) (e : Exc)
      → Triple
          (IsOpen id)
          (close_owner env config (record { id = id; started = true; entered = entered })
            >> raise {A = Unit {0}} e)
          (OpenOr id)
  unfolding close_owner live
  close_started id entered e = record { at = λ w h. ground arith }

  abbrev ReadyOr : ℕ → Outcome ℕ → World → Type 0
  ReadyOr id (ok s) w = (s ≡ id) × IsOpen id w
  ReadyOr id (raised e) w = IsCovered w

  wait-IsOpen :
      (id timeout : ℕ) (entered : Bool) (answer : Answer Unit)
      → Triple
          (IsOpen id)
          (catch (await_bounded answer timeout) (λ e.
              close_owner env config (record { id = id; started = true; entered = entered })
              >> raise {A = Unit {0}} e)
            >> pure id)
          (ReadyOr id)
  unfolding close_owner live
  wait-IsOpen id timeout entered answer =
      Triple-bind (OpenOr id) (ReadyOr id) _ _
        (Triple-catch (λ r w. IsOpen id w) (OpenOr id) _ _
          (Triple-await_bounded (λ r w. IsOpen id w) answer timeout (λ r n w h. h))
          (close_started id entered) (λ a w h. h))
        (λ a. record { at = λ w h. (refl, h) }) (λ e w h. h)

  wait_ready_lem :
      (id timeout : ℕ) (w : World)
      → IsMade id w
      → ReadyOr id (wait_ready env config id timeout w).0 (wait_ready env config id timeout w).1
  unfolding wait_ready live
  wait_ready_lem id timeout w h =
      (wait-IsOpen id timeout
          (entered_after (env.enter (opened id w.clock timeout ∷ w.history)) timeout)
          (env.enter (opened id w.clock timeout ∷ w.history)).answer).at
        _ ((h.3, h.0), (_, refl, refl, refl), ground arith, h.4)

  open-IsUp : (s : ℕ) (w : World) → IsOpen s w → w.session ≡ some s → IsUp s w
  open-IsUp s w h e = record {
    safe = h.0;
    owned = h.1;
    session_is = e;
    one_live = h.2;
    not_dead = h.3;
  }

  initialize_lem :
      (deadline : Option ℕ) (s : ℕ)
      → Triple (IsUp s) (initialize_session env config deadline s) (UpOr IsCovered)
  unfolding initialize_session live
  initialize_lem deadline s =
      Triple-bind (λ r w. IsUp s w) (UpOr IsCovered) _ _
        (Triple-bounded_phase_timeout config.call_timeout deadline)
        (λ timeout. record {
          at = λ w h.
              (Triple-bind {P = IsUp s} (λ r w. IsUp s w) (UpOr IsCovered)
                  (await_bounded (env.initialize (initialized s w.clock timeout ∷ w.history))
                    timeout)
                  (λ _. pure s)
                  (Triple-await_bounded (λ r w. IsUp s w) _ timeout
                    (λ r n w h. record {
                      safe = h.safe;
                      owned = h.owned;
                      session_is = h.session_is;
                      one_live = h.one_live;
                      not_dead = h.not_dead;
                    }))
                  (λ a. record { at = λ w h. h }) (λ e w h. IsUp-IsCovered h)).at
                (record w { history = initialized s w.clock timeout ∷ w.history })
                (record {
                  safe = (h.one_live, h.safe);
                  owned = h.owned;
                  session_is = h.session_is;
                  one_live = h.one_live;
                  not_dead = h.not_dead;
                });
        })
        (λ e w h. IsUp-IsCovered h)

  pub connect_lem :
      (deadline : Option ℕ) (id : ℕ)
      → Triple (IsMade id) (connect env config deadline id) (UpOr IsCovered)
  unfolding connect live
  connect_lem deadline id =
      Triple-bind (λ r w. IsMade id w) (UpOr IsCovered) _ _
        (Triple-bounded_phase_timeout config.setup_timeout deadline)
        (λ setup.
          Triple-bind (ReadyOr id) (UpOr IsCovered) _ _ (record { at = wait_ready_lem id setup })
            (λ s. record {
              at = λ w h.
                  (initialize_lem deadline s).at
                    (record w {
                      service = record w.service {
                        session = some s;
                        last_app_reachable = some true;
                      };
                    })
                    (open-IsUp s _ (subst (λ k. IsOpen k w) (sym h.0) h.1) refl);
            })
            (λ e w h. h))
        (λ e w h. record { safe = h.0; covered = ground arith })
