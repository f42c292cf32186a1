-- ===== src/Probe/Process.antt =====
-- The selected app's process (scripts/probe_imcp.py): `_read_running_executable`,
-- `_inspect_running_imcp`, `_require_selected_app_process`, `_launch_app_if_needed` and
-- `_verify_capture_process`.
pub mod Selected
use stavrobot_imcp_plugin.Prelude.{
  ℕ, zero, suc, Text, Bool, true, false, ◌&&◌, Option, none, some, List, [], ◌∷◌, ◌==◌,
  if◌then◌else◌,
}
use stavrobot_imcp_plugin.Json.{ℤ, pos, negsuc}
use stavrobot_imcp_plugin.Probe.{
  Identity, RunningProcess, Completed, ProbeError, not_inspected, no_identity, not_running,
  not_unique, other_executable, app_missing, not_opened, not_selected_after_launch, process_changed,
  identity_changed, Result, ok, error, opened_app, World, Mac, M, pure, fail, continue, ◌>>=◌, ◌>>◌,
  ask, act, require, from_option, int_eq, identity_eq, selected_app_executable, file_identity,
}
use stavrobot_imcp_plugin.Probe.Output.{RawIdentity, pids_of, split_lines, raw_identity}

-- LAUNCH_PROVENANCE_ATTEMPTS.
abbrev pub launch_attempts : ℕ
launch_attempts = 30

-- `int(value, 0)`, and `int(value, 16)` where that fails.
unfoldable pub parse_lsof_integer : (Text → Option ℤ) → (Text → Option ℤ) → Text → Option ℤ
parse_lsof_integer int0 int16 value = elim (int0 value) [ some i ↦ some i | none ↦ int16 value ]

-- The lines of a command that exited with 0.
unfoldable pub lines_of : Option Completed → Option (List Text)
unfolding split_lines int_eq
lines_of none = none
lines_of (some result) =
    if int_eq result.returncode (pos 0) then some (split_lines result.stdout) else none

-- `int10`, `int0` and `int16` are `int(value, base)`.
module _ (is_space : ℕ → Bool) (int10 int0 int16 : Text → Option ℤ) (mac : Mac) where
  unfoldable pub running_imcp_pids : M (List ℕ)
  unfolding ask ◌>>=◌
  running_imcp_pids = do
    answer ← ask mac.pgrep
    from_option not_inspected (pids_of is_space int10 answer)

  -- Every error is the one of the identity; the device and the inode are those that lsof shows.
  unfoldable pub read_running_executable : ℕ → M Identity
  unfolding ask ◌>>=◌ lines_of file_identity
  read_running_executable pid = do
    answer ← ask (λ n. mac.lsof n pid)
    lines ← from_option no_identity (lines_of answer)
    raw ← from_option no_identity (raw_identity lines)
    found ← file_identity is_space mac raw.raw_path
    device ← from_option no_identity (parse_lsof_integer int0 int16 raw.raw_device)
    inode ← from_option no_identity (parse_lsof_integer int0 int16 raw.raw_inode)
    pure (record { path = found.path; device = device; inode = inode })

  unfoldable pub inspect_all : List ℕ → M (List RunningProcess)
  unfolding ◌>>=◌
  inspect_all [] = pure []
  inspect_all (pid ∷ pids) = do
    executable ← read_running_executable pid
    rest ← inspect_all pids
    pure (record { pid = pid; executable = executable } ∷ rest)

  unfoldable pub inspect_running_imcp : M (List RunningProcess)
  unfolding ◌>>=◌
  inspect_running_imcp = do pids ← running_imcp_pids; inspect_all pids

  -- The one process that was observed, with the selected executable.
  unfoldable pub only_selected : Identity → List RunningProcess → M RunningProcess
  only_selected selected [] = fail not_running
  only_selected selected (p ∷ []) =
      if identity_eq p.executable selected then pure p else fail other_executable
  only_selected selected (p ∷ q ∷ ps) = fail not_unique

  unfoldable pub selected_identity : Text → M Identity
  unfolding ◌>>=◌
  selected_identity app = do
    path ← selected_app_executable is_space mac app
    file_identity is_space mac path

  unfoldable pub require_expected : Identity → M RunningProcess
  unfolding ◌>>=◌
  require_expected selected = do observed ← inspect_running_imcp; only_selected selected observed

  unfoldable pub require_selected_app_process : Text → M RunningProcess
  unfolding ◌>>=◌
  require_selected_app_process app = do selected ← selected_identity app; require_expected selected

  or_poll : Result RunningProcess → M RunningProcess → M RunningProcess
  or_poll (ok p) again w = (ok p, w)
  or_poll (error e) again w = again w

  -- The polling loop, by the attempts that are left; each attempt may find another world.
  unfoldable pub poll_selected : ℕ → Text → M RunningProcess
  unfolding or_poll
  poll_selected zero app w = fail not_selected_after_launch w
  poll_selected (suc n) app w =
      let (r, w') = require_selected_app_process app w in or_poll r (poll_selected n app) w'

  open_and_poll : Text → M RunningProcess
  unfolding ◌>>=◌ ask act poll_selected
  open_and_poll app = do
    act opened_app
    opened ← ask mac.open_app
    require opened not_opened
    poll_selected launch_attempts app

  by_running : Text → List ℕ → M RunningProcess
  unfolding open_and_poll
  by_running app [] = open_and_poll app
  by_running app (pid ∷ pids) = require_selected_app_process app

  unfoldable pub launch_app_if_needed : Text → M RunningProcess
  unfolding ◌>>=◌ ask by_running
  launch_app_if_needed app = do
    directory ← ask (λ n. mac.is_dir n app)
    require directory app_missing
    running ← running_imcp_pids
    by_running app running

  unfoldable pub verify_capture_process : Text → RunningProcess → M (Unit {0})
  unfolding ◌>>=◌
  verify_capture_process app before = do
    after ← require_selected_app_process app
    require (after.pid == before.pid) process_changed
    require (identity_eq after.executable before.executable) identity_changed
