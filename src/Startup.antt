-- ===== src/Startup.antt =====
-- `main` of bridge/server.py with the settings of `BridgeHTTPServer.__init__`: what is started,
-- served and closed, in order. The values of the command line are given.
pub mod Served
use stavrobot_imcp_plugin.Prelude.{
  ℕ, ◌+◌, ◌*◌, Text, Bool, true, false, Option, none, some, List, [], ◌∷◌, ◌≡◌, ◌≢◌, refl, inl, inr,
  Option-cases,
}
use stavrobot_imcp_plugin.Json.{ℤ, pos, Value}
use stavrobot_imcp_plugin.Json.Dump.{Bytes, ◌>>=◌}
use stavrobot_imcp_plugin.Bridge.Session.{Config}
use stavrobot_imcp_plugin.Config.{
  Setting, seconds, finite, positive_timeout, validate_port, normalize_path, load_token,
  load_allowlist, service_config,
}

-- The files hold bytes or text unless they cannot be read; `allow_tool` is the list of the repeated
-- option, if it was given, and `allowlist_file` the contents at the path, if one was given.
pub record Arguments : Type 0 where
  pub token_file : Option Text
  pub port : ℤ
  pub path : Text
  pub allow_tool : Option (List Text)
  pub allowlist_file : Option (Option Bytes)
  pub call_timeout : Setting

-- What a `BridgeHTTPServer` holds.
pub record Server : Type 0 where
  pub token : Text
  pub port : ℕ
  pub bridge_path : Text
  pub config : Config
  pub runtime_timeout : ℕ

pub data Action : Type 0 where
  starts_runtime closes_server closes_runtime : Action
  serves : Server → Action

pub data Ending : Type 0 where
  exits : ℕ → Ending
  raises : Ending

-- How a call of the operating system ends: well, with an OSError, or with another exception.
pub data Attempt : Type 0 where
  succeeds fails_os fails_otherwise : Attempt

-- How `serve_forever` ends.
pub data Serving : Type 0 where
  returns interrupted fails : Serving

pub record Machine : Type 0 where
  pub makes_loop : Attempt
  pub starts_thread : Attempt
  pub binds : Attempt
  pub serving : Serving

-- The settings before the server is made.
pub record Settings : Type 0 where
  pub token : Text
  pub port : ℕ
  pub path : Text
  pub config : Config

module _ (ticks : ℕ) (is_space : ℕ → Bool) (codec_message : Text → Text)
    (json_loads : Bytes → Option Value) where
  allowlist_of : Arguments → Option (List Text)
  allowlist_of args = elim args.allow_tool [
    | none ↦ load_allowlist codec_message args.allowlist_file json_loads
    | some names ↦ some names
  ]

  pub load_settings : Arguments → Option Settings
  unfolding allowlist_of
  load_settings args = do
    token ← load_token is_space args.token_file
    port ← validate_port args.port
    path ← normalize_path args.path
    allowlist ← allowlist_of args
    config ←
        service_config codec_message ticks allowlist args.call_timeout (seconds (pos 3))
          (seconds (pos 3)) none (seconds (pos 2))
    some (record { token = token; port = port; path = path; config = config })

  -- `BridgeHTTPServer.__init__`, with the default runtime timeout.
  pub server_of : Settings → Option Server
  unfolding positive_timeout normalize_path
  server_of s = do
    bridge_path ← normalize_path s.path
    runtime_timeout ← positive_timeout ticks (finite (pos (s.config.call_timeout + 5 * ticks)))
    some (record {
      token = s.token;
      port = s.port;
      bridge_path = bridge_path;
      config = s.config;
      runtime_timeout = runtime_timeout;
    })

  serve : Serving → Server → Ending × List Action
  serve outcome server = (
    elim outcome [ returns ↦ exits 0 | interrupted ↦ exits 0 | fails ↦ raises ],
    starts_runtime ∷ serves server ∷ closes_server ∷ closes_runtime ∷ [],
  )

  -- The `except` clause, once there is a runtime.
  pub startup_failed : Ending × List Action
  startup_failed = (exits 1, starts_runtime ∷ closes_runtime ∷ [])

  bind_server : Attempt → Machine → Option Server → Ending × List Action
  unfolding serve startup_failed
  bind_server binds m none = startup_failed
  bind_server succeeds m (some server) = serve m.serving server
  bind_server fails_os m (some server) = startup_failed
  bind_server fails_otherwise m (some server) = (raises, starts_runtime ∷ [])

  start_runtime : Attempt → Machine → Settings → Ending × List Action
  unfolding bind_server server_of startup_failed
  start_runtime succeeds m s = bind_server m.binds m (server_of s)
  start_runtime fails_os m s = startup_failed
  start_runtime fails_otherwise m s = (raises, starts_runtime ∷ [])

  make_runtime : Attempt → Machine → Settings → Ending × List Action
  unfolding start_runtime
  make_runtime succeeds m s = start_runtime m.starts_thread m s
  make_runtime fails_os m s = (exits 1, [])
  make_runtime fails_otherwise m s = (raises, [])

  main_with : Machine → Option Settings → Ending × List Action
  unfolding make_runtime
  main_with m none = (exits 1, [])
  main_with m (some s) = make_runtime m.makes_loop m s

  unfoldable pub main : Machine → Arguments → Ending × List Action
  unfolding main_with load_settings
  main m args = main_with m (load_settings args)
