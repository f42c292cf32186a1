-- ===== src/Install.antt =====
-- The login services (scripts/run_launchd_bridge.py, scripts/install_login_services.py): the
-- preflight of the private configuration, the launcher, and the installer with what it does to the
-- two LaunchAgent files and to launchd. The file system and launchd answer as the machine says.
pub mod Templates
pub mod Host
pub mod Installer
use stavrobot_imcp_plugin.Prelude.{
  ℕ, Text, codes, Bool, true, false, ◌&&◌, ◌||◌, Option, none, some, is_some, List, [], ◌∷◌, ◌++◌,
  ◌==◌, if◌then◌else◌,
}
use stavrobot_imcp_plugin.Json.{Value}
use stavrobot_imcp_plugin.Json.Dump.{Bytes}
use stavrobot_imcp_plugin.Config.{load_token, load_allowlist}

-- What `lstat` tells of a file: S_ISREG, the owner, and S_IMODE.
pub record FileStatus : Type 0 where
  pub regular : Bool
  pub owner : ℕ
  pub mode : ℕ

-- The private configuration as `preflight` finds it; `none` is an OSError. `token` is decoded text.
pub record PrivateFiles : Type 0 where
  pub uid : ℕ
  pub token_status : Option FileStatus
  pub allowlist_status : Option FileStatus
  pub token : Option Text
  pub allowlist : Option Bytes
  -- `sock.bind(("127.0.0.1", 8766))` succeeds.
  pub port_free : Bool

-- `0o400` and `0o600`.
abbrev pub read_mode : ℕ
read_mode = 256

abbrev pub read_write_mode : ℕ
read_write_mode = 384

unfoldable pub is_private : ℕ → Option FileStatus → Bool
is_private uid none = false
is_private uid (some info) =
    info.regular && (info.owner == uid && (info.mode == read_mode || info.mode == read_write_mode))

-- Where the launcher goes: `os.execv` with the arguments after the interpreter and the script, or
-- the exit status.
pub data Launch : Type 0 where
  exec : List Text → Launch
  exit : ℕ → Launch

module _ (is_space : ℕ → Bool) (codec_message : Text → Text)
    (json_loads : Bytes → Option Value) where
  -- Whether `preflight` returns; each exception is caught by its caller.
  unfoldable pub preflight : PrivateFiles → Bool
  unfolding is_private
  preflight files =
      is_private files.uid files.token_status
      && (is_private files.uid files.allowlist_status
          && (is_some (load_token is_space files.token)
              && (is_some (load_allowlist codec_message (some files.allowlist) json_loads)
                  && files.port_free)))

  unfoldable pub bridge_arguments : Text → List Text
  bridge_arguments home =
      codes "--bind"
      ∷ codes "127.0.0.1"
      ∷ codes "--port"
      ∷ codes "8766"
      ∷ codes "--path"
      ∷ codes "/bridge"
      ∷ codes "--token-file"
      ∷ (home ++ codes "/.config/imcp-bridge.token")
      ∷ codes "--allowlist-file"
      ∷ (home ++ codes "/.config/imcp-bridge-tools.json")
      ∷ codes "--call-timeout"
      ∷ codes "10"
      ∷ []

  unfoldable pub launch_main : Text → PrivateFiles → Launch
  unfolding preflight bridge_arguments
  launch_main home files = if preflight files then exec (bridge_arguments home) else exit 78
