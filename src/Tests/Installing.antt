-- ===== src/Tests/Installing.antt =====
-- The installer (scripts/install_login_services.py) on a machine where launchd and the files obey.
use stavrobot_imcp_plugin.Prelude.{
  ℕ, Text, codes, text_eq_refl, Bool, true, false, Option, none, some, [], ◌≡◌, refl, ◌⊎◌, ◌==◌,
  if◌then◌else◌,
}
use stavrobot_imcp_plugin.Json.{Value}
use stavrobot_imcp_plugin.Json.Dump.{Bytes}
use stavrobot_imcp_plugin.Client.{replace, contains}
use stavrobot_imcp_plugin.Install.{PrivateFiles}
use stavrobot_imcp_plugin.Install.Templates.{Plist, text, render_plist, render_value, plist_eq}
use stavrobot_imcp_plugin.Install.Installer.{
  succeeded, same_document, render_templates, install_main,
}
use stavrobot_imcp_plugin.Install.Host.{Label, app, bridge, missing, file, Jobs, Host, Machine}
use stavrobot_imcp_plugin.Install.Installer.Preserves.{Proceeds, install_main_lem}
use stavrobot_imcp_plugin.Install.Installer.Readiness.{Loads, IsReady}
use stavrobot_imcp_plugin.Install.Installer.Placed.{IsSettled, Writes}
use stavrobot_imcp_plugin.Install.Installer.Again.{install_main-IsSettled, install_main_again}

abbrev is_blank : ℕ → Bool
is_blank c = c == 32

abbrev loads : Bytes → Option Plist
loads b = some (text b)

abbrev dumps : Plist → Option Bytes
dumps (text s) = some s
dumps _ = none

abbrev load_job : Jobs → Label → Jobs
load_job jobs app app = true
load_job jobs app bridge = jobs bridge
load_job jobs bridge app = jobs app
load_job jobs bridge bridge = true

abbrev no_files : PrivateFiles
no_files = record {
  uid = 501;
  token_status = none;
  allowlist_status = none;
  token = none;
  allowlist = none;
  port_free = false;
}

abbrev machine : Machine
machine = record {
  home = codes "/Users/x";
  files = no_files;
  app_installed = true;
  template = λ l. some (codes "{{ .chezmoi.homeDir }}/log");
  launchctl_print = λ jobs l. if jobs l then some 0 else some 113;
  launchctl_bootstrap = λ jobs l. (some 0, load_job jobs l);
  others = λ targets. targets;
  directories = true;
  write = λ l b. (false, file (some b));
  readiness = λ n. if n == 28 then some 401 else none;
}

-- The bridge is active; nothing is installed yet.
abbrev host : Host
host = record {
  targets = λ l. missing;
  jobs = λ l. elim l [ app ↦ false | bridge ↦ true ];
  umask = 18;
  actions = [];
}

abbrev same_text : Text → Text
same_text s = s

abbrev no_json : Bytes → Option Value
no_json b = none

install_main_lem_example :
    ((install_main is_blank same_text no_json loads dumps machine host).host ≡ host)
    ⊎ Proceeds is_blank same_text no_json loads dumps machine host
        (install_main is_blank same_text no_json loads dumps machine host).host
install_main_lem_example = install_main_lem is_blank same_text no_json loads dumps machine host

installs : (install_main is_blank same_text no_json loads dumps machine host).status ≡ 0
unfolding install_main render_plist render_value contains replace
installs = refl

writes :
    (rendered : Label → Bytes)
    → render_templates is_blank same_text no_json loads dumps machine ≡ some rendered
    → Writes machine loads rendered
unfolding same_document plist_eq
writes rendered h = record { complete = λ l h. refl; same = λ l. text_eq_refl (rendered l) }

launchd : Loads machine
launchd = record { loads_job = loads_job; keeps_jobs = keeps_jobs }
  where
    loads_job :
        (jobs : Jobs) (l : Label)
        → succeeded (machine.launchctl_bootstrap jobs l).0 ≡ true
        → machine.launchctl_print (machine.launchctl_bootstrap jobs l).1 l ≡ some 0
    loads_job jobs app h = refl
    loads_job jobs bridge h = refl

    keeps_jobs :
        (jobs : Jobs) (l k : Label)
        → machine.launchctl_print jobs k ≡ some 0
        → machine.launchctl_print (machine.launchctl_bootstrap jobs l).1 k ≡ some 0
    keeps_jobs jobs app app h = refl
    keeps_jobs jobs app bridge h = h
    keeps_jobs jobs bridge app h = h
    keeps_jobs jobs bridge bridge h = refl

install_main-IsSettled_example :
    (rendered : Label → Bytes) × (render_templates is_blank same_text no_json loads dumps machine
      ≡ some rendered)
    × IsSettled machine loads rendered
        (install_main is_blank same_text no_json loads dumps machine host).host
    × IsReady machine 30
install_main-IsSettled_example =
    install_main-IsSettled is_blank same_text no_json loads dumps machine writes launchd host
      installs

install_main_again_example :
    (install_main is_blank same_text no_json loads dumps machine
      (install_main is_blank same_text no_json loads dumps machine host).host).host
    ≡ (install_main is_blank same_text no_json loads dumps machine host).host
install_main_again_example =
    install_main_again is_blank same_text no_json loads dumps machine writes launchd (λ t. refl)
      host installs
