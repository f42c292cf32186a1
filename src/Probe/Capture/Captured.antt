-- ===== src/Probe/Capture/Captured.antt =====
-- What stands behind a document that the probe wrote (scripts/probe_imcp.py).
use stavrobot_imcp_plugin.Prelude.{
  ℕ, ◌<◌, Text, Bool, Option, none, some, List, ◌∷◌, length, ◌≡◌, refl,
}
use stavrobot_imcp_plugin.Json.{ℤ, Value}
use stavrobot_imcp_plugin.Probe.{
  RunningProcess, Result, ok, error, wrote, World, Mac, read_app_version,
}
use stavrobot_imcp_plugin.Probe.Process.{launch_app_if_needed, verify_capture_process}
use stavrobot_imcp_plugin.Probe.Process.Selected.{IsSelected}
use stavrobot_imcp_plugin.Probe.Listing.{connect}
use stavrobot_imcp_plugin.Probe.Listing.Terminates.{Pages, HasCursors, list_all_tools_total}
use stavrobot_imcp_plugin.Probe.Capture.{
  Arguments, start_version, before_listing, check_version, run_listed, run_started, run_probe,
  exit_with, probe_main,
}

module _ (is_space : ℕ → Bool) (int10 int0 int16 : Text → Option ℤ) (mac : Mac)
    (args : Arguments) where
  -- The version is the argument, or what the app said before and after the listing.
  pub data IsVersion (version : Text) (before after : World) : Type 0 where
    given : args.app_version ≡ some version → IsVersion version before after
    read_twice :
        args.app_version ≡ none
        → (read_app_version is_space mac args.app before).0 ≡ ok version
        → (read_app_version is_space mac args.app after).0 ≡ ok version
        → IsVersion version before after

  pub record Captured (w w' : World) : Type 0 where
    pub process : RunningProcess
    pub version : Text
    pub tools : List Value
    pub listed_at : World
    pub launched : (launch_app_if_needed is_space int10 int0 int16 mac args.app w).0 ≡ ok process
    pub selected : (v : World) × IsSelected is_space int10 int0 int16 mac args.app v process
    pub pages :
        Pages mac none
          (connect mac (before_listing is_space int10 int0 int16 mac args w).1).1
          tools
          listed_at
    pub verified :
        (verify_capture_process is_space int10 int0 int16 mac args.app process listed_at).0 ≡ ok tt
    pub still_selected : IsSelected is_space int10 int0 int16 mac args.app listed_at process
    pub versions :
        IsVersion version
          (launch_app_if_needed is_space int10 int0 int16 mac args.app w).1
          (verify_capture_process is_space int10 int0 int16 mac args.app process listed_at).1
    pub last_actions : World
    pub written : w'.actions ≡ wrote tools version args.capture_date ∷ last_actions.actions

  -- What the part after the listing had seen, if it wrote the document.
  record Finishes (process : RunningProcess) (version : Text) (tools : List Value) (w w' : World)
      : Type 0 where
    verified : (verify_capture_process is_space int10 int0 int16 mac args.app process w).0 ≡ ok tt
    checked :
        (check_version is_space int10 int0 int16 mac args args.app_version version
          (verify_capture_process is_space int10 int0 int16 mac args.app process w).1).0
        ≡ ok tt
    last_actions : World
    written : w'.actions ≡ wrote tools version args.capture_date ∷ last_actions.actions

  record Started (w : World) (process : RunningProcess) (version : Text) : Type 0 where
    launched : (launch_app_if_needed is_space int10 int0 int16 mac args.app w).0 ≡ ok process
    started :
        (start_version is_space int10 int0 int16 mac args args.app_version
          (launch_app_if_needed is_space int10 int0 int16 mac args.app w).1).0
        ≡ ok version

  succeeded :
      (x : Option (Result Unit × World)) (w' : World)
      → exit_with is_space int10 int0 int16 mac args x ≡ some (0, w')
      → x ≡ some (ok tt, w')
  unfolding exit_with
  succeeded none w' h = cc
  succeeded (some (ok u, v)) w' h = cc
  succeeded (some (error e, v)) w' h = cc

  run_listed_total :
      (fuel : ℕ) (process : RunningProcess) (version : Text)
      (x : Option (Result (List Value) × World))
      → ((y : Result (List Value) × World) × (x ≡ some y))
      → (r : Result Unit × World) × (run_listed is_space int10 int0 int16 mac args process version x
          ≡ some r)
  unfolding run_listed
  run_listed_total fuel process version none (y, e) = absurd (cc)
  run_listed_total fuel process version (some (error e, w)) y = (_, refl)
  run_listed_total fuel process version (some (ok tools, w)) y = (_, refl)

  run_started_total :
      (cs : List Text)
      → HasCursors mac cs
      → (fuel : ℕ) (r : Result (RunningProcess × Text)) (w : World) → length cs < fuel
      → (x : Result Unit × World) × (run_started is_space int10 int0 int16 mac args fuel r w
          ≡ some x)
  unfolding run_started
  run_started_total cs known fuel (error e) w h = (_, refl)
  run_started_total cs known fuel (ok (process, version)) w h =
      run_listed_total fuel process version _ (list_all_tools_total mac cs known fuel w h)

  exits :
      (x : Option (Result Unit × World))
      → ((y : Result Unit × World) × (x ≡ some y))
      → (r : ℕ × World) × (exit_with is_space int10 int0 int16 mac args x ≡ some r)
  unfolding exit_with
  exits none (y, e) = absurd (cc)
  exits (some (r, w)) y = (_, refl)

  -- The probe ends with a status: if each next cursor of the server is one of finitely many, then one
  -- round more than there are cursors is enough.
  pub probe_main_total :
      (cs : List Text)
      → HasCursors mac cs
      → (fuel : ℕ) (w : World) → length cs < fuel
      → (x : ℕ × World) × (probe_main is_space int10 int0 int16 mac args fuel w ≡ some x)
  unfolding probe_main run_probe
  probe_main_total cs known fuel w h = exits _ (
      run_started_total cs known fuel (before_listing is_space int10 int0 int16 mac args w).0
        (before_listing is_space int10 int0 int16 mac args w).1 h)
