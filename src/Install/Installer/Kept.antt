-- ===== src/Install/Installer/Kept.antt =====
-- What the parts of a run of the installer leave as it was (scripts/install_login_services.py).
use stavrobot_imcp_plugin.Prelude.{
  ℕ, zero, suc, Bool, true, false, Option, none, List, [], ◌∷◌, ◌++◌, ◌≡◌, refl, ◌∙◌, ◌⊎◌, inl, inr,
  arith, ◌==◌, if◌then◌else◌, Bool-cases, Option-cases,
}
use stavrobot_imcp_plugin.Json.Dump.{Bytes}
use stavrobot_imcp_plugin.Install.Templates.{Plist}
use stavrobot_imcp_plugin.Install.Installer.{
  target_matches, private_umask, check_existing_targets, written_host, write_target, keep_target,
  prepare_target, write_missing_targets, restore_umask, prepare_targets, bootstrap, bootstrap_all,
  await_ready, after_bootstrap, after_prepare,
}
use stavrobot_imcp_plugin.Install.Host.{
  Label, app, bridge, labels, Target, missing, symlink, not_a_file, file, Targets, set_target,
  Action, wrote, bootstrapped, Host, Machine, Match, matches, differs, unreadable, Prepared,
  prepared, template_drift, os_error, Bootstrapped, bootstrapped_all, stopped, stop_with,
}

-- The actions since `old`, each with `P`.
pub data Extends (P : Action → Type 0) (old : List Action) : List Action → Type 0 where
  same : Extends P old old
  more : {a : Action} {new : List Action} → P a → Extends P old new → Extends P old (a ∷ new)

Extends-trans :
    {P : Action → Type 0} {a b c : List Action} → Extends P a b → Extends P b c → Extends P a c
Extends-trans h same = h
Extends-trans h (more p k) = more p (Extends-trans h k)

-- Files are written for their owner only, and no loaded job is bootstrapped.
abbrev pub IsAllowed : (Label → Bool) → Action → Type 0
IsAllowed active (wrote l umask) = umask ≡ private_umask
IsAllowed active (bootstrapped l) = active l ≡ false

-- A target that was there is as it was; a missing one may have been written.
abbrev pub KeepsTarget : Target → Target → Target → Type 0
KeepsTarget before after left = (after ≡ before) ⊎ ((before ≡ missing) × (after ≡ left))

KeepsTarget-trans :
    {a b c left : Target} → KeepsTarget a b left → KeepsTarget b c left → KeepsTarget a c left
KeepsTarget-trans (inl p) (inl q) = inl (q ∙ p)
KeepsTarget-trans (inl p) (inr (e, q)) = inr (cc, q)
KeepsTarget-trans (inr (e, p)) (inl q) = inr (e, q ∙ p)
KeepsTarget-trans (inr (e, p)) (inr (f, q)) = inr (e, q)

module _ (m : Machine) (loads : Bytes → Option Plist) (rendered : Label → Bytes)
    (active : Label → Bool) where
  pub record Kept (before after : Host) : Type 0 where
    pub target :
        (l : Label) → KeepsTarget (before.targets l) (after.targets l) (m.write l (rendered l)).1
    pub umask : after.umask ≡ before.umask
    pub extends : Extends (IsAllowed active) before.actions after.actions

  Kept-refl : (w : Host) → Kept w w
  Kept-refl w = record { target = λ l. inl refl; umask = refl; extends = same }

  Kept-trans : {u v w : Host} → Kept u v → Kept v w → Kept u w
  Kept-trans h k = record {
    target = λ l. KeepsTarget-trans (h.target l) (k.target l);
    umask = k.umask ∙ h.umask;
    extends = Extends-trans h.extends k.extends;
  }

  pub host_of : Prepared → Host
  host_of (prepared w) = w
  host_of (template_drift w) = w
  host_of (os_error w) = w

  set_target-Keeps :
      (l k : Label) (targets : Targets) (left : Target)
      → targets l ≡ missing
      → left ≡ (m.write l (rendered l)).1
      → KeepsTarget (targets k) (set_target l left targets k) (m.write k (rendered k)).1
  unfolding set_target
  set_target-Keeps app app targets left e q = inr (e, q)
  set_target-Keeps app bridge targets left e q = inl refl
  set_target-Keeps bridge app targets left e q = inl refl
  set_target-Keeps bridge bridge targets left e q = inr (e, q)

  written_host-Kept :
      (l : Label) (w : Host)
      → w.targets l ≡ missing
      → w.umask ≡ private_umask
      → Kept w (written_host m loads rendered l (m.write l (rendered l)).1 w)
  unfolding written_host
  written_host-Kept l w e u = record {
    target = λ k. set_target-Keeps l k w.targets _ e refl;
    umask = refl;
    extends = more u same;
  }

  write_target-Kept :
      (l : Label) (w : Host)
      → w.targets l ≡ missing
      → w.umask ≡ private_umask
      → Kept w (host_of (write_target m loads rendered l w))
  unfolding write_target host_of
  write_target-Kept l w e u = elim (Bool-cases (m.write l (rendered l)).0) [
    | inl fails ↦ rw fails (written_host-Kept l w e u)
    | inr complete ↦ rw complete (written_host-Kept l w e u)
  ]

  keep_target-Kept : (r : Match) (w : Host) → Kept w (host_of (keep_target m loads rendered r w))
  unfolding keep_target host_of
  keep_target-Kept matches w = Kept-refl w
  keep_target-Kept differs w = Kept-refl w
  keep_target-Kept unreadable w = Kept-refl w

  prepare_target-Kept :
      (l : Label) (t : Target) (w : Host)
      → w.targets l ≡ t
      → w.umask ≡ private_umask
      → Kept w (host_of (prepare_target m loads rendered l t w))
  unfolding prepare_target host_of
  prepare_target-Kept l missing w e u = write_target-Kept l w e u
  prepare_target-Kept l symlink w e u = Kept-refl w
  prepare_target-Kept l not_a_file w e u =
      keep_target-Kept (target_matches loads (rendered l) not_a_file) w
  prepare_target-Kept l (file contents) w e u =
      keep_target-Kept (target_matches loads (rendered l) (file contents)) w

  write_missing_targets-Kept :
      (ls : List Label) (w : Host)
      → w.umask ≡ private_umask
      → Kept w (host_of (write_missing_targets m loads rendered ls w))
  unfolding write_missing_targets host_of
  write_missing_targets-Kept [] w u = Kept-refl w
  write_missing_targets-Kept (l ∷ ls) w u =
      go (prepare_target m loads rendered l (w.targets l) w)
        (prepare_target-Kept l (w.targets l) w refl u) (write_missing_targets-Kept ls)
    where
      go :
          (r : Prepared)
          → Kept w (host_of r)
          → ((w' : Host)
              → w'.umask ≡ private_umask
              → Kept w' (host_of (write_missing_targets m loads rendered ls w')))
          → Kept w (
              host_of (elim r [
                | prepared w' ↦ write_missing_targets m loads rendered ls w'
                | template_drift w' ↦ template_drift w'
                | os_error w' ↦ os_error w'
              ]))
      go (prepared w') k ih = Kept-trans k (ih w' (k.umask ∙ u))
      go (template_drift w') k ih = k
      go (os_error w') k ih = k

  Kept-restored :
      (w : Host) (r : Prepared)
      → Kept (record w { umask = private_umask }) (host_of r)
      → Kept w (host_of (restore_umask m loads rendered w.umask r))
  unfolding restore_umask host_of
  Kept-restored w (prepared v) k = record { target = k.target; umask = refl; extends = k.extends }
  Kept-restored w (template_drift v) k = record {
    target = k.target;
    umask = refl;
    extends = k.extends;
  }
  Kept-restored w (os_error v) k = record { target = k.target; umask = refl; extends = k.extends }

  Kept-if :
      (b : Bool) (w : Host) (p q : Prepared)
      → Kept w (host_of p)
      → Kept w (host_of q)
      → Kept w (host_of (if b then p else q))
  Kept-if true w p q hp hq = hp
  Kept-if false w p q hp hq = hq

  failed-Kept : (w : Host) → Kept w (host_of (os_error w))
  unfolding host_of
  failed-Kept w = Kept-refl w

  pub prepare_targets-Kept : (w : Host) → Kept w (host_of (prepare_targets m loads rendered w))
  unfolding prepare_targets
  prepare_targets-Kept w =
      let w' = record w { umask = private_umask } in
      Kept-restored w _
        (Kept-if m.directories w' _ _ (write_missing_targets-Kept labels w' refl) (failed-Kept w'))

  bootstrap-Kept :
      (l : Label) (w : Host) → active l ≡ false → Kept w (bootstrap m loads rendered l w).1
  unfolding bootstrap
  bootstrap-Kept l w e = record { target = λ k. inl refl; umask = refl; extends = more e same }

  booted_host : Bootstrapped → Host
  booted_host (bootstrapped_all w) = w
  booted_host (stopped loaded w) = w

  bootstrap_all-Kept :
      (ls loaded : List Label) (w : Host)
      → Kept w (booted_host (bootstrap_all m loads rendered active ls loaded w))
  unfolding bootstrap_all booted_host
  bootstrap_all-Kept [] loaded w = Kept-refl w
  bootstrap_all-Kept (l ∷ ls) loaded w = elim (Bool-cases (active l)) [
    | inl loaded_before ↦
        rw (loaded_before, bootstrap_all, booted_host) (bootstrap_all-Kept ls (loaded ++ l ∷ []) w)
    | inr inactive ↦
        rw (inactive, bootstrap_all, booted_host)
          (elim (Bool-cases (bootstrap m loads rendered l w).0) [
            | inl started ↦
                rw (started, bootstrap_all, booted_host)
                  (Kept-trans (bootstrap-Kept l w inactive)
                    (bootstrap_all-Kept ls (loaded ++ l ∷ []) (bootstrap m loads rendered l w).1))
            | inr failed ↦ rw (failed, bootstrap_all, booted_host) (bootstrap-Kept l w inactive)
          ])
  ]

  pub await_ready-host : (n : ℕ) (w : Host) → (await_ready m loads rendered n w).host ≡ w
  unfolding await_ready stop_with
  await_ready-host zero w = refl
  await_ready-host (suc n) w = elim (Option-cases (m.readiness n)) [
    | inl fault ↦ rw (fault, await_ready) (await_ready-host n w)
    | inr (code, e) ↦
        rw (e, await_ready)
          (elim (Bool-cases (code == 401)) [
            | inl rejects ↦ rw (rejects, await_ready) refl
            | inr other ↦ rw (other, await_ready) (await_ready-host n w)
          ])
  ]

  after_bootstrap-host :
      (r : Bootstrapped) → (after_bootstrap m loads rendered r).host ≡ booted_host r
  unfolding after_bootstrap booted_host stop_with
  after_bootstrap-host (bootstrapped_all w) = await_ready-host 30 w
  after_bootstrap-host (stopped loaded w) = refl

  pub after_prepare-Kept :
      (w : Host) (r : Prepared)
      → Kept w (host_of r)
      → Kept w (after_prepare m loads rendered active r).host
  unfolding after_prepare host_of stop_with
  after_prepare-Kept w (prepared v) k =
      rw (after_bootstrap-host (bootstrap_all m loads rendered active labels [] v))
        (Kept-trans k (bootstrap_all-Kept labels [] v))
  after_prepare-Kept w (template_drift v) k = k
  after_prepare-Kept w (os_error v) k = k

  pub matches_of_check :
      (targets : Targets)
      → check_existing_targets m loads rendered targets labels ≡ none
      → (l : Label) → target_matches loads (rendered l) (targets l) ≡ matches
  unfolding check_existing_targets
  matches_of_check targets h app = ground arith
  matches_of_check targets h bridge = ground arith
