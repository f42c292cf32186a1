-- ===== src/Install/Installer/Readiness.antt =====
-- A run of the installer that exits with status 0 (scripts/install_login_services.py), and the run
-- after it.
use mathlib.Core.Path.{subst}
use stavrobot_imcp_plugin.Prelude.{
  ℕ, zero, suc, ◌<◌, Bool, true, Option, some, List, [], ◌∷◌, ◌++◌, ◌≡◌, refl, ◌∙◌, inl, inr, arith,
  ◌==◌, ==_iff, Bool-cases, Option-cases,
}
use stavrobot_imcp_plugin.Json.Dump.{Bytes}
use stavrobot_imcp_plugin.Install.Templates.{Plist}
use stavrobot_imcp_plugin.Install.Installer.{
  succeeded, bootstrap, bootstrap_all, await_ready, after_bootstrap, after_prepare,
}
use stavrobot_imcp_plugin.Install.Host.{
  Label, app, bridge, labels, Jobs, Host, Machine, Prepared, prepared, template_drift, os_error,
  Bootstrapped, bootstrapped_all, stopped, stop_with,
}
use stavrobot_imcp_plugin.Install.Installer.Kept.{await_ready-host}
use stavrobot_imcp_plugin.Install.Installer.Placed.{each_label}

module _ (m : Machine) where
  -- `launchctl bootstrap` with status 0 loads the job, and unloads none; `launchctl print` of a
  -- loaded job exits with 0.
  pub record Loads : Type 0 where
    pub loads_job :
        (jobs : Jobs) (l : Label)
        → succeeded (m.launchctl_bootstrap jobs l).0 ≡ true
        → m.launchctl_print (m.launchctl_bootstrap jobs l).1 l ≡ some 0
    pub keeps_jobs :
        (jobs : Jobs) (l k : Label)
        → m.launchctl_print jobs k ≡ some 0
        → m.launchctl_print (m.launchctl_bootstrap jobs l).1 k ≡ some 0

  -- One of the first `n` readiness requests was rejected as unauthenticated.
  abbrev pub IsReady : ℕ → Type 0
  IsReady n = (i : ℕ) × (i < n) × (m.readiness i ≡ some 401)

module _ (m : Machine) (loads : Bytes → Option Plist) (rendered : Label → Bytes) where
  -- A job that is active, or that was bootstrapped, is loaded; the rest is left alone.
  record Booted (l : Label) (w w' : Host) : Type 0 where
    here : m.launchctl_print w'.jobs l ≡ some 0
    elsewhere :
        (k : Label) → m.launchctl_print w.jobs k ≡ some 0 → m.launchctl_print w'.jobs k ≡ some 0
    targets_kept : w'.targets ≡ w.targets

  bootstrap-Booted :
      Loads m
      → (l : Label) (w : Host) → (bootstrap m loads rendered l w).0 ≡ true
      → Booted l w (bootstrap m loads rendered l w).1
  unfolding bootstrap
  bootstrap-Booted launchd l w h = record {
    here = launchd.loads_job w.jobs l h;
    elsewhere = λ k. launchd.keeps_jobs w.jobs l k;
    targets_kept = refl;
  }

  bootstrap_all-cons :
      Loads m
      → (active : Label → Bool) (l : Label) (ls loaded : List Label) (w w' : Host)
      → (active l ≡ true → m.launchctl_print w.jobs l ≡ some 0)
      → bootstrap_all m loads rendered active (l ∷ ls) loaded w ≡ bootstrapped_all w'
      → (v : Host) × Booted l w v
        × (bootstrap_all m loads rendered active ls (loaded ++ l ∷ []) v ≡ bootstrapped_all w')
  unfolding bootstrap_all
  bootstrap_all-cons launchd active l ls loaded w w' known h = elim (Bool-cases (active l)) [
    | inl on ↦ (
      w,
      record { here = known on; elsewhere = λ k q. q; targets_kept = refl },
      rw (on, bootstrap_all) at h,
    )
    | inr off ↦ elim (Bool-cases (bootstrap m loads rendered l w).0) [
      | inl started ↦
          ((bootstrap m loads rendered l w).1, bootstrap-Booted launchd l w started, ground arith)
      | inr failed ↦ absurd (ground arith)
    ]
  ]

  pub bootstrap_all-loaded :
      Loads m
      → (active : Label → Bool) (w w' : Host)
      → ((l : Label) → active l ≡ true → m.launchctl_print w.jobs l ≡ some 0)
      → bootstrap_all m loads rendered active labels [] w ≡ bootstrapped_all w'
      → ((l : Label) → m.launchctl_print w'.jobs l ≡ some 0) × (w'.targets ≡ w.targets)
  bootstrap_all-loaded launchd active w w' known h =
      let (u, first, h') =
        bootstrap_all-cons launchd active app (bridge ∷ []) [] w w' (known app) h in
      let (v, second, h'') =
        bootstrap_all-cons launchd active bridge [] _ u w'
          (λ on. first.elsewhere bridge (known bridge on)) h' in
      let q : v ≡ w' = unfold bootstrap_all in cc in
      subst (λ x. ((l : Label) → m.launchctl_print x.jobs l ≡ some 0) × (x.targets ≡ w.targets)) q
        (
          each_label (λ l. m.launchctl_print v.jobs l ≡ some 0) (second.elsewhere app first.here)
              second.here,
          second.targets_kept ∙ first.targets_kept,
        )

  await_ready-IsReady :
      (n : ℕ) (w : Host) → (await_ready m loads rendered n w).status ≡ 0 → IsReady m n
  unfolding await_ready stop_with
  await_ready-IsReady zero w h = cc
  await_ready-IsReady (suc n) w h = elim (Option-cases (m.readiness n)) [
    | inl fault ↦ later (await_ready-IsReady n w (ground arith))
    | inr (code, e) ↦ elim (Bool-cases (code == 401)) [
      | inl rejects ↦ (n, omega arith, ground (arith, ==_iff code 401))
      | inr other ↦ later (await_ready-IsReady n w (ground arith))
    ]
  ]
    where
      later : IsReady m n → IsReady m (suc n)
      later (i, lt, e) = (i, omega arith, e)

  -- How a run with status 0 got through its last part.
  pub record Finished (active : Label → Bool) (r : Prepared) (w' : Host) : Type 0 where
    pub middle : Host
    pub was_prepared : r ≡ prepared middle
    pub was_bootstrapped :
        bootstrap_all m loads rendered active labels [] middle ≡ bootstrapped_all w'
    pub ready : IsReady m 30

  pub after_prepare-Finished :
      (active : Label → Bool) (r : Prepared)
      → (after_prepare m loads rendered active r).status ≡ 0
      → Finished active r (after_prepare m loads rendered active r).host
  unfolding after_prepare stop_with
  after_prepare-Finished active (prepared v) h =
      go (bootstrap_all m loads rendered active labels [] v) refl h
    where
      go :
          (b : Bootstrapped)
          → bootstrap_all m loads rendered active labels [] v ≡ b
          → (after_bootstrap m loads rendered b).status ≡ 0
          → Finished active (prepared v) (after_bootstrap m loads rendered b).host
      go (bootstrapped_all u) e h' = rw (await_ready-host m loads rendered active 30 u) (record {
        middle = v;
        was_prepared = refl;
        was_bootstrapped = e;
        ready = await_ready-IsReady 30 u h';
      })
      go (stopped l u) e h' = cc
  after_prepare-Finished active (template_drift v) h = cc
  after_prepare-Finished active (os_error v) h = cc
