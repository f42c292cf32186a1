-- ===== src/Install/Installer.antt =====
-- `main` of scripts/install_login_services.py with `_target_matches`, `_check_existing_targets`,
-- `_write_missing_targets`, `_prepare_targets`, `_job_is_loaded` and `_bootstrap`.
mod Kept
pub mod Preserves
pub mod Placed
pub mod Readiness
pub mod Again
use stavrobot_imcp_plugin.Prelude.{
  ℕ, zero, suc, ◌-◌, Text, codes, Bool, true, false, Option, none, some, is_some, List, [], ◌∷◌,
  ◌++◌, ◌==◌, if◌then◌else◌,
}
use stavrobot_imcp_plugin.Json.{Value}
use stavrobot_imcp_plugin.Json.Dump.{Bytes, ◌>>=◌}
use stavrobot_imcp_plugin.Install.{PrivateFiles, preflight}
use stavrobot_imcp_plugin.Install.Templates.{Plist, plist_eq, render_plist}
use stavrobot_imcp_plugin.Install.Host.{
  Label, app, bridge, labels, label_text, Target, missing, symlink, not_a_file, file, Targets,
  set_target, Jobs, Action, wrote, bootstrapped, Host, Machine, Run, Match, matches, differs,
  unreadable, Prepared, prepared, template_drift, os_error, Bootstrapped, bootstrapped_all, stopped,
  both, both_active, joined, stop_with, partial_lines,
}

unfoldable pub same_document : Option Plist → Option Plist → Bool
same_document (some a) (some b) = plist_eq a b
same_document (some a) none = false
same_document none b = false

module _ (loads : Bytes → Option Plist) (expected : Bytes) where
  compare_bytes : Option Bytes → Match
  unfolding same_document
  compare_bytes none = unreadable
  compare_bytes (some existing) =
      if same_document (loads existing) (loads expected) then matches else differs

  unfoldable pub target_matches : Target → Match
  unfolding compare_bytes
  target_matches missing = matches
  target_matches symlink = differs
  target_matches not_a_file = differs
  target_matches (file contents) = compare_bytes contents

-- `_run_launchctl` with `check=True` returns.
unfoldable pub succeeded : Option ℕ → Bool
succeeded none = false
succeeded (some code) = code == 0

-- The umask under which the files are written, `0o077`.
abbrev pub private_umask : ℕ
private_umask = 63

module _ (m : Machine) (loads : Bytes → Option Plist) (rendered : Label → Bytes) where
  -- `_check_existing_targets`: the line that it prints before it gives up.
  unfoldable pub check_existing_targets : Targets → List Label → Option Text
  unfolding target_matches
  check_existing_targets targets [] = none
  check_existing_targets targets (l ∷ ls) = elim (target_matches loads (rendered l) (targets l)) [
    | matches ↦ check_existing_targets targets ls
    | differs ↦ some (codes "Existing launch template differs; reconcile it before installation.")
    | unreadable ↦
        some (codes "Could not inspect existing LaunchAgent files; no changes were made.")
  ]

  written_host : Label → Target → Host → Host
  unfolding set_target
  written_host l t w = record w {
    targets = set_target l t w.targets;
    actions = wrote l w.umask ∷ w.actions;
  }

  write_target : Label → Host → Prepared
  unfolding written_host
  write_target l w =
      let (fails, left) = m.write l (rendered l) in
      if fails then os_error (written_host l left w) else prepared (written_host l left w)

  keep_target : Match → Host → Prepared
  keep_target matches w = prepared w
  keep_target differs w = template_drift w
  keep_target unreadable w = os_error w

  -- One round of the loop of `_write_missing_targets`.
  prepare_target : Label → Target → Host → Prepared
  unfolding write_target keep_target target_matches
  prepare_target l missing w = write_target l w
  prepare_target l symlink w = template_drift w
  prepare_target l not_a_file w = keep_target (target_matches loads (rendered l) not_a_file) w
  prepare_target l (file contents) w =
      keep_target (target_matches loads (rendered l) (file contents)) w

  unfoldable pub write_missing_targets : List Label → Host → Prepared
  unfolding prepare_target
  write_missing_targets [] w = prepared w
  write_missing_targets (l ∷ ls) w = elim (prepare_target l (w.targets l) w) [
    | prepared w' ↦ write_missing_targets ls w'
    | template_drift w' ↦ template_drift w'
    | os_error w' ↦ os_error w'
  ]

  restore_umask : ℕ → Prepared → Prepared
  restore_umask previous (prepared w) = prepared (record w { umask = previous })
  restore_umask previous (template_drift w) = template_drift (record w { umask = previous })
  restore_umask previous (os_error w) = os_error (record w { umask = previous })

  unfoldable pub prepare_targets : Host → Prepared
  unfolding write_missing_targets restore_umask
  prepare_targets w =
      let w' = record w { umask = private_umask } in
      restore_umask w.umask (if m.directories then write_missing_targets labels w' else os_error w')

  -- `_bootstrap` with what `_run_launchctl` makes of the result.
  bootstrap : Label → Host → Bool × Host
  unfolding succeeded
  bootstrap l w =
      let (code, jobs) = m.launchctl_bootstrap w.jobs l in
      (succeeded code, record w { jobs = jobs; actions = bootstrapped l ∷ w.actions })

  unfoldable pub bootstrap_all : (Label → Bool) → List Label → List Label → Host → Bootstrapped
  unfolding bootstrap
  bootstrap_all active [] loaded w = bootstrapped_all w
  bootstrap_all active (l ∷ ls) loaded w = elim (active l) [
    | true ↦ bootstrap_all active ls (loaded ++ l ∷ []) w
    | false ↦ elim (bootstrap l w).0 [
      | true ↦ bootstrap_all active ls (loaded ++ l ∷ []) (bootstrap l w).1
      | false ↦ stopped loaded (bootstrap l w).1
    ]
  ]

  -- The readiness loop, by the rounds that are left.
  unfoldable pub await_ready : ℕ → Host → Run
  unfolding stop_with
  await_ready zero w =
      stop_with
        (codes "Services installed, but bridge readiness timed out; inspect launchctl status." ∷ [])
        w
  await_ready (suc n) w = elim (m.readiness n) [
    | none ↦ await_ready n w
    | some code ↦ elim (code == 401) [
      | true ↦ record {
        status = 0;
        lines =
            codes
              "Login services installed; bridge is listening and rejects unauthenticated requests."
            ∷ [];
        host = w;
      }
      | false ↦ await_ready n w
    ]
  ]

  unfoldable pub after_bootstrap : Bootstrapped → Run
  unfolding await_ready stop_with partial_lines
  after_bootstrap (bootstrapped_all w) = await_ready 30 w
  after_bootstrap (stopped loaded w) =
      stop_with
        (codes "Login service bootstrap failed; no existing jobs were stopped or replaced."
          ∷ partial_lines loaded)
        w

  unfoldable pub after_prepare : (Label → Bool) → Prepared → Run
  unfolding after_bootstrap bootstrap_all stop_with
  after_prepare active (prepared w) = after_bootstrap (bootstrap_all active labels [] w)
  after_prepare active (template_drift w) =
      stop_with (codes "Existing launch template differs; reconcile it before installation." ∷ []) w
  after_prepare active (os_error w) =
      stop_with (codes "Could not prepare LaunchAgent files; no service was bootstrapped." ∷ []) w

module _ (is_space : ℕ → Bool) (codec_message : Text → Text) (json_loads : Bytes → Option Value)
    (loads : Bytes → Option Plist) (dumps : Plist → Option Bytes) (m : Machine) where
  -- `_render_templates`.
  unfoldable pub render_templates : Option (Label → Bytes)
  unfolding both
  render_templates =
      both (render_plist loads dumps m.home (m.template app))
        (render_plist loads dumps m.home (m.template bridge))

  unfoldable pub active_jobs : Jobs → Option (Label → Bool)
  unfolding both_active
  active_jobs jobs = both_active (m.launchctl_print jobs app) (m.launchctl_print jobs bridge)

  -- An active bridge is not probed.
  unfoldable pub may_install : (Label → Bool) → Bool
  may_install active =
      if m.app_installed
      then (if active bridge then true else preflight is_space codec_message json_loads m.files)
      else false

  unfoldable pub install_on : (Label → Bytes) → (Label → Bool) → Host → Run
  unfolding may_install prepare_targets after_prepare stop_with
  install_on rendered active w =
      if may_install active
      then after_prepare m loads rendered active
          (prepare_targets m loads rendered (record w { targets = m.others w.targets }))
      else stop_with
          (codes "Installation preflight failed: check app, private configuration, and port 8766."
            ∷ [])
          w

  unfoldable pub query_and_install : (Label → Bytes) → Host → Run
  unfolding active_jobs install_on stop_with
  query_and_install rendered w = elim (active_jobs w.jobs) [
    | none ↦ stop_with (codes "Could not inspect login services; no changes were made." ∷ []) w
    | some active ↦ install_on rendered active w
  ]

  unfoldable pub install_main : Host → Run
  unfolding render_templates check_existing_targets query_and_install stop_with
  install_main w = elim render_templates [
    | none ↦
        stop_with (codes "Installation template validation failed; no changes were made." ∷ []) w
    | some rendered ↦ elim (check_existing_targets m loads rendered w.targets labels) [
      | some line ↦ stop_with (line ∷ []) w
      | none ↦ query_and_install rendered w
    ]
  ]
