-- ===== src/Install/Installer/Placed.antt =====
-- The files after a run of the installer that exits with status 0
-- (scripts/install_login_services.py).
use mathlib.Core.Path.{subst}
use stavrobot_imcp_plugin.Prelude.{
  ℕ, Bool, true, false, Option, some, List, [], ◌∷◌, ◌++◌, ◌≡◌, ◌≢◌, refl, sym, ◌∙◌, arith,
  if◌then◌else◌, Bool-cases, inl, inr,
}
use stavrobot_imcp_plugin.Json.Dump.{Bytes}
use stavrobot_imcp_plugin.Install.Templates.{Plist}
use stavrobot_imcp_plugin.Install.Installer.{
  write_target, written_host, target_matches, private_umask, compare_bytes, same_document,
  bootstrap_all, write_missing_targets, prepare_target, keep_target, prepare_targets, restore_umask,
}
use stavrobot_imcp_plugin.Install.Host.{
  Label, app, bridge, labels, Target, missing, symlink, not_a_file, file, Targets, set_target,
  wrote, Host, Machine, Match, matches, differs, unreadable, Prepared, prepared, template_drift,
  os_error, bootstrapped_all,
}

pub each_label : (P : Label → Type 0) → P app → P bridge → (l : Label) → P l
each_label P a b app = a
each_label P a b bridge = b

module _ (m : Machine) (loads : Bytes → Option Plist) (rendered : Label → Bytes) where
  -- A file that matches stands at the path.
  unfoldable pub IsInstalled : Label → Target → Type 0
  IsInstalled l t = (t ≢ missing) × (target_matches loads (rendered l) t ≡ matches)

  -- Both files are in place, and launchd has both jobs.
  pub record IsSettled (w : Host) : Type 0 where
    pub installed : (l : Label) → IsInstalled l (w.targets l)
    pub loaded : (l : Label) → m.launchctl_print w.jobs l ≡ some 0

  prepare_target-settled :
      (l : Label) (t : Target) (w : Host)
      → IsInstalled l t
      → prepare_target m loads rendered l t w ≡ prepared w
  unfolding prepare_target keep_target IsInstalled
  prepare_target-settled l missing w h = absurd (h.0 refl)
  prepare_target-settled l symlink w h = cc (h.1)
  prepare_target-settled l not_a_file w h = cc (h.1)
  prepare_target-settled l (file contents) w h = rw (h.1) refl

  write_missing_targets-settled :
      (ls : List Label) (w : Host)
      → ((l : Label) → IsInstalled l (w.targets l))
      → write_missing_targets m loads rendered ls w ≡ prepared w
  unfolding write_missing_targets
  write_missing_targets-settled [] w h = refl
  write_missing_targets-settled (l ∷ ls) w h =
      rw (prepare_target-settled l (w.targets l) w (h l), write_missing_targets)
        (write_missing_targets-settled ls w h)

  pub prepare_targets-settled :
      (w : Host)
      → m.directories ≡ true
      → IsSettled w
      → prepare_targets m loads rendered w ≡ prepared w
  unfolding prepare_targets restore_umask
  prepare_targets-settled w made h =
      simp (
        made,
        write_missing_targets-settled labels (record w { umask = private_umask }) h.installed,
      )

  pub bootstrap_all-active :
      (active : Label → Bool) (ls loaded : List Label) (w : Host)
      → ((l : Label) → active l ≡ true)
      → bootstrap_all m loads rendered active ls loaded w ≡ bootstrapped_all w
  unfolding bootstrap_all
  bootstrap_all-active active [] loaded w h = refl
  bootstrap_all-active active (l ∷ ls) loaded w h =
      rw (h l, bootstrap_all) (bootstrap_all-active active ls (loaded ++ l ∷ []) w h)

  -- A write that returns leaves the document, and plistlib reads a rendered document as one that
  -- equals itself.
  pub record Writes : Type 0 where
    pub complete :
        (l : Label)
        → (m.write l (rendered l)).0 ≡ false
        → (m.write l (rendered l)).1 ≡ file (some (rendered l))
    pub same : (l : Label) → same_document (loads (rendered l)) (loads (rendered l)) ≡ true

  set_target-IsInstalled :
      (l k : Label) (targets : Targets) (t : Target)
      → IsInstalled l t
      → (IsInstalled k (targets k) → IsInstalled k (set_target l t targets k))
        × IsInstalled l (set_target l t targets l)
  unfolding set_target
  set_target-IsInstalled app app targets t h = (λ _. h, h)
  set_target-IsInstalled app bridge targets t h = (λ k. k, h)
  set_target-IsInstalled bridge app targets t h = (λ k. k, h)
  set_target-IsInstalled bridge bridge targets t h = (λ _. h, h)

  -- What one round of the loop leaves, if it goes on.
  record Placed (l : Label) (w w' : Host) : Type 0 where
    here : IsInstalled l (w'.targets l)
    elsewhere : (k : Label) → IsInstalled k (w.targets k) → IsInstalled k (w'.targets k)
    jobs_kept : w'.jobs ≡ w.jobs

  document-IsInstalled : Writes → (l : Label) → IsInstalled l (file (some (rendered l)))
  unfolding IsInstalled target_matches compare_bytes
  document-IsInstalled good l = (λ e. cc, rw (good.same l) refl)

  written : Label → Host → Host
  written l w = record w {
    targets = set_target l (file (some (rendered l))) w.targets;
    actions = wrote l w.umask ∷ w.actions;
  }

  prepare_target-missing :
      Writes
      → (l : Label) (w w' : Host) → prepare_target m loads rendered l missing w ≡ prepared w'
      → written l w ≡ w'
  unfolding prepare_target write_target written_host written
  prepare_target-missing good l w w' h = elim (Bool-cases (m.write l (rendered l)).0) [
    | inl fails ↦ cc (rw (fails, prepare_target) at h)
    | inr returned ↦ cc (rw (returned, good.complete l returned, prepare_target) at h)
  ]

  written-Placed : Writes → (l : Label) (w : Host) → Placed l w (written l w)
  unfolding written
  written-Placed good l w =
      let t : Target = file (some (rendered l)) in
      let h = λ (k : Label). set_target-IsInstalled l k w.targets t (document-IsInstalled good l) in
      record { here = (h l).1; elsewhere = λ k. (h k).0; jobs_kept = refl }

  kept-Placed :
      (l : Label) (contents : Option Bytes) (w : Host)
      → w.targets l ≡ file contents
      → target_matches loads (rendered l) (file contents) ≡ matches
      → Placed l w w
  unfolding IsInstalled
  kept-Placed l contents w e matched = record {
    here = (λ none_there. cc, rw e matched);
    elsewhere = λ k h. h;
    jobs_kept = refl;
  }

  keep_target-prepared :
      (r : Match) (w w' : Host)
      → keep_target m loads rendered r w ≡ prepared w'
      → (r ≡ matches) × (w ≡ w')
  unfolding keep_target
  keep_target-prepared matches w w' h = (refl, cc)
  keep_target-prepared differs w w' h = cc
  keep_target-prepared unreadable w w' h = cc

  prepare_target-Placed :
      Writes
      → (l : Label) (t : Target) (w w' : Host) → w.targets l ≡ t
      → prepare_target m loads rendered l t w ≡ prepared w'
      → Placed l w w'
  prepare_target-Placed good l missing w w' e h =
      subst (Placed l w) (prepare_target-missing good l w w' h) (written-Placed good l w)
  prepare_target-Placed good l symlink w w' e h = unfold prepare_target in cc
  prepare_target-Placed good l not_a_file w w' e h =
      unfold prepare_target in unfold keep_target in unfold target_matches in cc
  prepare_target-Placed good l (file contents) w w' e h =
      let (matched, q) =
        keep_target-prepared (target_matches loads (rendered l) (file contents)) w w'
          (unfold prepare_target in h) in
      subst (Placed l w) q (kept-Placed l contents w e matched)

  next_prepared :
      (r : Prepared) (ls : List Label) (w' : Host)
      → elim r [
        | prepared v ↦ write_missing_targets m loads rendered ls v
        | template_drift v ↦ template_drift v
        | os_error v ↦ os_error v
      ]
        ≡ prepared w'
      → (v : Host) × (r ≡ prepared v) × (write_missing_targets m loads rendered ls v ≡ prepared w')
  next_prepared (prepared v) ls w' h = (v, refl, h)
  next_prepared (template_drift v) ls w' h = cc
  next_prepared (os_error v) ls w' h = cc

  -- The loop over both labels, if it ends.
  write_missing_targets-IsInstalled :
      Writes
      → (w w' : Host) → write_missing_targets m loads rendered labels w ≡ prepared w'
      → ((l : Label) → IsInstalled l (w'.targets l)) × (w'.jobs ≡ w.jobs)
  write_missing_targets-IsInstalled good w w' h =
      let (u, e, h') =
        next_prepared (prepare_target m loads rendered app (w.targets app) w) (bridge ∷ []) w'
          (unfold write_missing_targets in h) in
      let (v, e', h'') =
        next_prepared (prepare_target m loads rendered bridge (u.targets bridge) u) [] w'
          (unfold write_missing_targets in h') in
      let first = prepare_target-Placed good app (w.targets app) w u refl e in
      let second = prepare_target-Placed good bridge (u.targets bridge) u v refl e' in
      let q : v ≡ w' = unfold write_missing_targets in cc in
      subst (λ x. ((l : Label) → IsInstalled l (x.targets l)) × (x.jobs ≡ w.jobs)) q
        (
          each_label (λ l. IsInstalled l (v.targets l)) (second.elsewhere app first.here)
              second.here,
          second.jobs_kept ∙ first.jobs_kept,
        )

  restore_umask-prepared :
      (u : ℕ) (r : Prepared) (w' : Host)
      → restore_umask m loads rendered u r ≡ prepared w'
      → (v : Host) × (r ≡ prepared v) × (w' ≡ record v { umask = u })
  unfolding restore_umask
  restore_umask-prepared u (prepared v) w' h = (v, refl, cc)
  restore_umask-prepared u (template_drift v) w' h = cc
  restore_umask-prepared u (os_error v) w' h = cc

  if_prepared :
      (b : Bool) (r : Prepared) (v w : Host)
      → (if b then r else os_error w) ≡ prepared v
      → r ≡ prepared v
  if_prepared true r v w h = h
  if_prepared false r v w h = cc

  pub prepare_targets-IsInstalled :
      Writes
      → (w w' : Host) → prepare_targets m loads rendered w ≡ prepared w'
      → ((l : Label) → IsInstalled l (w'.targets l)) × (w'.jobs ≡ w.jobs)
  prepare_targets-IsInstalled good w w' h =
      let w0 = record w { umask = private_umask } in
      let (v, e, q) =
        restore_umask-prepared w.umask
          (if m.directories then write_missing_targets m loads rendered labels w0 else os_error w0)
          w' (unfold prepare_targets in h) in
      let placed =
        write_missing_targets-IsInstalled good w0 v (if_prepared m.directories _ v w0 e) in
      subst (λ x. ((l : Label) → IsInstalled l (x.targets l)) × (x.jobs ≡ w.jobs)) (sym q) placed

  pub prepare_targets-directories :
      (w w' : Host) → prepare_targets m loads rendered w ≡ prepared w' → m.directories ≡ true
  unfolding prepare_targets restore_umask
  prepare_targets-directories w w' h = ground arith
