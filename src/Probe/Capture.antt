-- ===== src/Probe/Capture.antt =====
-- `_run` and `main` (scripts/probe_imcp.py). The document is what `_render_document` is given; the
-- arguments are parsed already, and a timeout ends the listing as one of its errors.
pub mod Captured
use stavrobot_imcp_plugin.Prelude.{
  ℕ, Text, text_eq, Bool, true, false, Option, none, some, List, [], ◌∷◌, if◌then◌else◌,
}
use stavrobot_imcp_plugin.Json.{ℤ, Value}
use stavrobot_imcp_plugin.Probe.{
  RunningProcess, Result, ok, error, ProbeError, version_changed, not_written, wrote, World, Mac, M,
  pure, fail, continue, ◌>>=◌, ◌>>◌, ask, act, require, read_app_version,
}
use stavrobot_imcp_plugin.Probe.Process.{launch_app_if_needed, verify_capture_process}
use stavrobot_imcp_plugin.Probe.Listing.{list_all_tools}

pub record Arguments : Type 0 where
  pub app : Text
  pub app_version : Option Text
  pub capture_date : Text

module _ (is_space : ℕ → Bool) (int10 int0 int16 : Text → Option ℤ) (mac : Mac)
    (args : Arguments) where
  start_version : Option Text → M Text
  start_version (some version) = pure version
  start_version none = read_app_version is_space mac args.app

  with_version : RunningProcess → M (RunningProcess × Text)
  unfolding ◌>>=◌ start_version
  with_version before = do version ← start_version args.app_version; pure (before, version)

  unfoldable pub before_listing : M (RunningProcess × Text)
  unfolding ◌>>=◌ with_version
  before_listing = do
    before ← launch_app_if_needed is_space int10 int0 int16 mac args.app
    with_version before

  -- A version that was read is read again.
  check_version : Option Text → Text → M (Unit {0})
  unfolding ◌>>=◌
  check_version (some given) version = pure tt
  check_version none version = do
    final ← read_app_version is_space mac args.app
    require (text_eq final version) version_changed

  write_document : List Value → Text → M (Unit {0})
  unfolding ◌>>=◌ ask act
  write_document tools version = do
    done ← ask mac.writes
    require done not_written
    act (wrote tools version args.capture_date)

  check_and_write : List Value → Text → M (Unit {0})
  unfolding ◌>>=◌ check_version write_document
  check_and_write tools version = do
    check_version args.app_version version
    write_document tools version

  unfoldable pub after_listing : RunningProcess → Text → List Value → M (Unit {0})
  unfolding ◌>>=◌ check_and_write
  after_listing before version tools = do
    verify_capture_process is_space int10 int0 int16 mac args.app before
    check_and_write tools version

  run_listed :
      RunningProcess
      → Text
      → Option (Result (List Value) × World)
      → Option (Result (Unit {0}) × World)
  run_listed before version none = none
  run_listed before version (some (error e, w)) = some (error e, w)
  run_listed before version (some (ok tools, w)) = some (after_listing before version tools w)

  run_started : ℕ → Result (RunningProcess × Text) → World → Option (Result (Unit {0}) × World)
  unfolding run_listed
  run_started fuel (error e) w = some (error e, w)
  run_started fuel (ok (before, version)) w = run_listed before version (list_all_tools mac fuel w)

  unfoldable pub run_probe : ℕ → World → Option (Result (Unit {0}) × World)
  unfolding run_started
  run_probe fuel w = run_started fuel (before_listing w).0 (before_listing w).1

  -- The exit status.
  unfoldable pub probe_status : Result (Unit {0}) → ℕ
  probe_status (ok _) = 0
  probe_status (error e) = 1

  exit_with : Option (Result (Unit {0}) × World) → Option (ℕ × World)
  unfolding probe_status
  exit_with none = none
  exit_with (some (r, w)) = some (probe_status r, w)

  unfoldable pub probe_main : ℕ → World → Option (ℕ × World)
  unfolding run_probe exit_with
  probe_main fuel w = exit_with (run_probe fuel w)
