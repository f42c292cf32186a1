-- ===== src/Install/Installer/Preserves.antt =====
-- What a run of the installer may change (scripts/install_login_services.py).
use stavrobot_imcp_plugin.Prelude.{
  ℕ, Text, Bool, true, false, Option, some, ◌≡◌, ◌⊎◌, inl, inr, arith, Bool-cases, Option-cases,
}
use stavrobot_imcp_plugin.Json.{Value}
use stavrobot_imcp_plugin.Json.Dump.{Bytes}
use stavrobot_imcp_plugin.Install.{preflight}
use stavrobot_imcp_plugin.Install.Templates.{Plist}
use stavrobot_imcp_plugin.Install.Installer.{
  target_matches, check_existing_targets, render_templates, active_jobs, may_install, install_on,
  query_and_install, install_main,
}
use stavrobot_imcp_plugin.Install.Host.{Label, bridge, labels, Host, Machine, matches, stop_with}
use stavrobot_imcp_plugin.Install.Installer.Kept.{
  Kept, prepare_targets-Kept, after_prepare-Kept, matches_of_check,
}

module _ (is_space : ℕ → Bool) (codec_message : Text → Text) (json_loads : Bytes → Option Value)
    (loads : Bytes → Option Plist) (dumps : Plist → Option Bytes) (m : Machine) where
  -- The checks that stand before the first change, and what was changed since.
  pub record Proceeds (w after : Host) : Type 0 where
    pub rendered : Label → Bytes
    pub templates : render_templates is_space codec_message json_loads loads dumps m ≡ some rendered
    pub matched : (l : Label) → target_matches loads (rendered l) (w.targets l) ≡ matches
    pub active : Label → Bool
    pub queried : active_jobs is_space codec_message json_loads loads dumps m w.jobs ≡ some active
    pub installed : m.app_installed ≡ true
    pub checked :
        (active bridge ≡ true) ⊎ (preflight is_space codec_message json_loads m.files ≡ true)
    pub kept : Kept m loads rendered active (record w { targets = m.others w.targets }) after

  may_install-cases :
      (active : Label → Bool)
      → may_install is_space codec_message json_loads loads dumps m active ≡ true
      → (m.app_installed ≡ true)
        × ((active bridge ≡ true) ⊎ (preflight is_space codec_message json_loads m.files ≡ true))
  unfolding may_install
  may_install-cases active h = elim (Bool-cases (active bridge)) [
    | inl loaded ↦ (ground arith, inl loaded)
    | inr inactive ↦ (ground arith, inr (ground arith))
  ]

  install_on-cases :
      (rendered : Label → Bytes) (active : Label → Bool) (w : Host)
      → render_templates is_space codec_message json_loads loads dumps m ≡ some rendered
      → ((l : Label) → target_matches loads (rendered l) (w.targets l) ≡ matches)
      → active_jobs is_space codec_message json_loads loads dumps m w.jobs ≡ some active
      → ((install_on is_space codec_message json_loads loads dumps m rendered active w).host ≡ w)
        ⊎ Proceeds w
            (install_on is_space codec_message json_loads loads dumps m rendered active w).host
  unfolding install_on stop_with
  install_on-cases rendered active w templates matched queried =
      elim (Bool-cases (may_install is_space codec_message json_loads loads dumps m active)) [
        | inr refused ↦ inl (ground arith)
        | inl allowed ↦ inr (
            rw (allowed, install_on)
              (let before = record w { targets = m.others w.targets } in
                record {
                  rendered = rendered;
                  templates = templates;
                  matched = matched;
                  active = active;
                  queried = queried;
                  installed = (may_install-cases active allowed).0;
                  checked = (may_install-cases active allowed).1;
                  kept =
                      after_prepare-Kept m loads rendered active before _
                        (prepare_targets-Kept m loads rendered active before);
                }))
      ]

  query_and_install-cases :
      (rendered : Label → Bytes) (w : Host)
      → render_templates is_space codec_message json_loads loads dumps m ≡ some rendered
      → ((l : Label) → target_matches loads (rendered l) (w.targets l) ≡ matches)
      → ((query_and_install is_space codec_message json_loads loads dumps m rendered w).host ≡ w)
        ⊎ Proceeds w
            (query_and_install is_space codec_message json_loads loads dumps m rendered w).host
  unfolding query_and_install stop_with
  query_and_install-cases rendered w templates matched =
      elim (Option-cases (active_jobs is_space codec_message json_loads loads dumps m w.jobs)) [
        | inl unknown ↦ inl (ground arith)
        | inr (active, queried) ↦
            rw (queried, query_and_install)
              (install_on-cases rendered active w templates matched queried)
      ]

  -- A run of the installer leaves the files, the jobs and the umask alone, or every check held
  -- before the first change: both templates were rendered, both existing targets matched, both jobs
  -- were queried, and the app is there with the bridge active or the preflight passed. Then a target
  -- that stands there when the files are prepared stays as it is, the umask is put back, each file is
  -- written under the umask 0o077, and only jobs that were not active are bootstrapped.
  pub install_main_lem :
      (w : Host)
      → ((install_main is_space codec_message json_loads loads dumps m w).host ≡ w)
        ⊎ Proceeds w (install_main is_space codec_message json_loads loads dumps m w).host
  unfolding install_main stop_with
  install_main_lem w =
      elim (Option-cases (render_templates is_space codec_message json_loads loads dumps m)) [
        | inl broken ↦ inl (ground arith)
        | inr (rendered, templates) ↦
            rw (templates, install_main)
              (elim (Option-cases (check_existing_targets m loads rendered w.targets labels)) [
                | inr (line, drift) ↦ inl (ground arith)
                | inl clean ↦
                    rw (clean, install_main)
                      (query_and_install-cases rendered w templates
                        (matches_of_check m loads rendered (λ l. false) w.targets clean))
              ])
      ]
