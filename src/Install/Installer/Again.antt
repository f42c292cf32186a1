-- ===== src/Install/Installer/Again.antt =====
-- A run of the whole installer that exits with status 0, and the run after it
-- (scripts/install_login_services.py).
use stavrobot_imcp_plugin.Prelude.{
  ℕ, Text, Bool, true, false, Option, none, some, [], ◌≡◌, refl, ap, ◌∙◌, inl, inr, arith, ==_iff,
  Bool-cases, Option-cases,
}
use stavrobot_imcp_plugin.Json.{Value}
use stavrobot_imcp_plugin.Json.Dump.{Bytes}
use stavrobot_imcp_plugin.Install.Templates.{Plist}
use stavrobot_imcp_plugin.Install.Installer.{
  check_existing_targets, prepare_targets, after_prepare, after_bootstrap, render_templates,
  active_jobs, may_install, install_on, query_and_install, install_main,
}
use stavrobot_imcp_plugin.Install.Host.{
  Label, app, bridge, labels, Host, Machine, Targets, Jobs, both_active, stop_with,
}
use stavrobot_imcp_plugin.Install.Installer.Kept.{await_ready-host}
use stavrobot_imcp_plugin.Install.Installer.Readiness.{
  Loads, IsReady, Finished, bootstrap_all-loaded, after_prepare-Finished,
}
use stavrobot_imcp_plugin.Install.Installer.Placed.{
  each_label, IsSettled, IsInstalled, Writes, prepare_targets-settled, bootstrap_all-active,
  prepare_targets-IsInstalled, prepare_targets-directories,
}

active_at : Label → Option (Label → Bool) → Bool
active_at l none = false
active_at l (some active) = active l

-- Both queries were answered, and a job that counts as active had exit status 0.
both_active-some :
    (a b : Option ℕ) (active : Label → Bool)
    → both_active a b ≡ some active
    → (active app ≡ true → a ≡ some 0) × (active bridge ≡ true → b ≡ some 0)
unfolding both_active active_at
both_active-some (some a) (some b) active h = (
  λ on. ap some ((==_iff a 0).0 (ap (active_at app) h ∙ on)),
  λ on. ap some ((==_iff b 0).0 (ap (active_at bridge) h ∙ on)),
)
both_active-some (some a) none active h = cc
both_active-some none b active h = cc

module _ (is_space : ℕ → Bool) (codec_message : Text → Text) (json_loads : Bytes → Option Value)
    (loads : Bytes → Option Plist) (dumps : Plist → Option Bytes) (m : Machine) where
  -- A run that went through: what it had read, and how it ended.
  record Succeeds (w after : Host) : Type 0 where
    rendered : Label → Bytes
    templates : render_templates is_space codec_message json_loads loads dumps m ≡ some rendered
    active : Label → Bool
    queried : active_jobs is_space codec_message json_loads loads dumps m w.jobs ≡ some active
    allowed : may_install is_space codec_message json_loads loads dumps m active ≡ true
    finished :
        Finished m loads rendered active
          (prepare_targets m loads rendered (record w { targets = m.others w.targets }))
          after

  install_on-Succeeds :
      (rendered : Label → Bytes) (active : Label → Bool) (w : Host)
      → render_templates is_space codec_message json_loads loads dumps m ≡ some rendered
      → active_jobs is_space codec_message json_loads loads dumps m w.jobs ≡ some active
      → (install_on is_space codec_message json_loads loads dumps m rendered active w).status ≡ 0
      → Succeeds w
          (install_on is_space codec_message json_loads loads dumps m rendered active w).host
  unfolding install_on stop_with
  install_on-Succeeds rendered active w templates queried h =
      elim (Bool-cases (may_install is_space codec_message json_loads loads dumps m active)) [
        | inr refused ↦ absurd (ground arith)
        | inl allowed ↦
            rw (allowed, install_on)
              (record {
                rendered = rendered;
                templates = templates;
                active = active;
                queried = queried;
                allowed = allowed;
                finished =
                    after_prepare-Finished m loads rendered active
                      (prepare_targets m loads rendered (record w { targets = m.others w.targets }))
                      (rw (allowed, install_on) at h);
              })
      ]

  query_and_install-Succeeds :
      (rendered : Label → Bytes) (w : Host)
      → render_templates is_space codec_message json_loads loads dumps m ≡ some rendered
      → (query_and_install is_space codec_message json_loads loads dumps m rendered w).status ≡ 0
      → Succeeds w
          (query_and_install is_space codec_message json_loads loads dumps m rendered w).host
  unfolding query_and_install stop_with
  query_and_install-Succeeds rendered w templates h =
      elim (Option-cases (active_jobs is_space codec_message json_loads loads dumps m w.jobs)) [
        | inl unknown ↦ absurd (ground arith)
        | inr (active, queried) ↦
            rw (queried, query_and_install)
              (install_on-Succeeds rendered active w templates queried
                (rw (queried, query_and_install) at h))
      ]

  install_main-Succeeds :
      (w : Host)
      → (install_main is_space codec_message json_loads loads dumps m w).status ≡ 0
      → Succeeds w (install_main is_space codec_message json_loads loads dumps m w).host
  unfolding install_main stop_with
  install_main-Succeeds w h =
      elim (Option-cases (render_templates is_space codec_message json_loads loads dumps m)) [
        | inl broken ↦ absurd (ground arith)
        | inr (rendered, templates) ↦
            rw (templates, install_main)
              (elim (Option-cases (check_existing_targets m loads rendered w.targets labels)) [
                | inr (line, drift) ↦ absurd (ground arith)
                | inl clean ↦
                    rw (clean, install_main)
                      (query_and_install-Succeeds rendered w templates
                        (rw (clean, install_main) at (rw (templates, install_main) at h)))
              ])
      ]

  active_jobs-active :
      (jobs : Jobs) (active : Label → Bool)
      → active_jobs is_space codec_message json_loads loads dumps m jobs ≡ some active
      → (l : Label) → active l ≡ true
      → m.launchctl_print jobs l ≡ some 0
  unfolding active_jobs
  active_jobs-active jobs active h app on =
      (both_active-some (m.launchctl_print jobs app) (m.launchctl_print jobs bridge) active h).0 on
  active_jobs-active jobs active h bridge on =
      (both_active-some (m.launchctl_print jobs app) (m.launchctl_print jobs bridge) active h).1 on

  active_jobs-loaded :
      (jobs : Jobs)
      → ((l : Label) → m.launchctl_print jobs l ≡ some 0)
      → (active : Label → Bool) × (active_jobs is_space codec_message json_loads loads dumps m jobs
          ≡ some active)
        × ((l : Label) → active l ≡ true)
  unfolding active_jobs both_active
  active_jobs-loaded jobs h = (
    _,
    rw (h app, h bridge) refl,
    each_label (λ l. elim l [ app ↦ true | bridge ↦ true ] ≡ true) refl refl,
  )

  check_existing_targets-settled :
      (rendered : Label → Bytes) (targets : Targets)
      → ((l : Label) → IsInstalled m loads rendered l (targets l))
      → check_existing_targets m loads rendered targets labels ≡ none
  unfolding check_existing_targets IsInstalled
  check_existing_targets-settled rendered targets h =
      rw ((h app).1, check_existing_targets) (rw ((h bridge).1, check_existing_targets) refl)

  may_install-active :
      (active active' : Label → Bool)
      → may_install is_space codec_message json_loads loads dumps m active ≡ true
      → active' bridge ≡ true
      → may_install is_space codec_message json_loads loads dumps m active' ≡ true
  unfolding may_install
  may_install-active active active' h on = ground arith

  after_prepare-settled :
      (rendered : Label → Bytes) (active : Label → Bool) (w : Host)
      → m.directories ≡ true
      → IsSettled m loads rendered w
      → ((l : Label) → active l ≡ true)
      → (after_prepare m loads rendered active (prepare_targets m loads rendered w)).host ≡ w
  unfolding after_prepare after_bootstrap
  after_prepare-settled rendered active w made settled on =
      rw (prepare_targets-settled m loads rendered w made settled, after_prepare)
        (rw (bootstrap_all-active m loads rendered active labels [] w on, after_bootstrap)
          (await_ready-host m loads rendered active 30 w))

  install_main-settled :
      (rendered : Label → Bytes) (active : Label → Bool) (w : Host)
      → render_templates is_space codec_message json_loads loads dumps m ≡ some rendered
      → active_jobs is_space codec_message json_loads loads dumps m w.jobs ≡ some active
      → may_install is_space codec_message json_loads loads dumps m active ≡ true
      → m.directories ≡ true
      → m.others w.targets ≡ w.targets
      → IsSettled m loads rendered w
      → ((l : Label) → active l ≡ true)
      → (install_main is_space codec_message json_loads loads dumps m w).host ≡ w
  unfolding install_main query_and_install install_on
  install_main-settled rendered active w templates queried allowed made alone settled on =
      rw (templates, install_main)
        (rw (check_existing_targets-settled rendered w.targets settled.installed, install_main)
          (rw (queried, query_and_install)
            (rw (allowed, install_on)
              (rw alone (after_prepare-settled rendered active w made settled on)))))

  module _
      (good : (rendered : Label → Bytes)
        → render_templates is_space codec_message json_loads loads dumps m ≡ some rendered
        → Writes m loads rendered)
      (launchd : Loads m) where
    Succeeds-IsSettled : (w w' : Host) (s : Succeeds w w') → IsSettled m loads s.rendered w'
    Succeeds-IsSettled w w' s =
        let before = record w { targets = m.others w.targets } in
        let f = s.finished in
        let (placed, jobs) =
          prepare_targets-IsInstalled m loads s.rendered (good s.rendered s.templates) before
            f.middle f.was_prepared in
        let known = λ (l : Label) (on : s.active l ≡ true).
          ap (λ j. m.launchctl_print j l) jobs
          ∙ active_jobs-active w.jobs s.active s.queried l on in
        let (loaded, targets) =
          bootstrap_all-loaded m loads s.rendered launchd s.active f.middle w' known
            f.was_bootstrapped in
        record { installed = rw targets placed; loaded = loaded }

    -- If a run of the installer exits with status 0, then both files stand at their paths and match
    -- the rendered templates, launchd has both jobs, and one of the first 30 readiness requests was
    -- answered with status 401. The conditions are that a write that returns leaves the document, that
    -- plistlib reads a rendered document as one that equals itself, and that launchctl loads the job
    -- that it bootstraps, unloads none and reports a loaded job.
    pub install_main-IsSettled :
        (w : Host)
        → (install_main is_space codec_message json_loads loads dumps m w).status ≡ 0
        → (rendered : Label → Bytes) × (render_templates is_space codec_message json_loads loads
              dumps m
            ≡ some rendered)
          × IsSettled m loads rendered
              (install_main is_space codec_message json_loads loads dumps m w).host
          × IsReady m 30
    install_main-IsSettled w h =
        let s = install_main-Succeeds w h in
        (s.rendered, s.templates, Succeeds-IsSettled w _ s, s.finished.ready)

    -- Installing again after a run that exited with status 0 changes no file and no job, if nobody
    -- else changes the files meanwhile, a write that returns leaves the document, plistlib reads a
    -- rendered document as one that equals itself, and launchctl loads the job that it bootstraps,
    -- unloads none and reports a loaded job.
    pub install_main_again :
        ((targets : Targets) → m.others targets ≡ targets)
        → (w : Host) → (install_main is_space codec_message json_loads loads dumps m w).status ≡ 0
        → (install_main is_space codec_message json_loads loads dumps m
            (install_main is_space codec_message json_loads loads dumps m w).host).host
          ≡ (install_main is_space codec_message json_loads loads dumps m w).host
    install_main_again alone w h =
        let s = install_main-Succeeds w h in
        let settled = Succeeds-IsSettled w _ s in
        let (active, queried, on) = active_jobs-loaded _ settled.loaded in
        install_main-settled s.rendered active _ s.templates queried
          (may_install-active s.active active s.allowed (on bridge))
          (prepare_targets-directories m loads s.rendered _ _ s.finished.was_prepared) (alone _)
          settled on
