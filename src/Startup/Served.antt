-- ===== src/Startup/Served.antt =====
-- What a start of the bridge served and closed (bridge/server.py, `main`).
use mathlib.Core.Path.{subst}
use stavrobot_imcp_plugin.Prelude.{
  ◌⊎◌, ℕ, zero, suc, ◌+◌, ◌*◌, Text, Bool, true, Option, none, some, List, [], ◌∷◌, ◌≡◌, ◌≢◌, refl,
  ◌∙◌, ap, sym, inl, inr, Bool-cases,
}
use stavrobot_imcp_plugin.Json.{pos, Value}
use stavrobot_imcp_plugin.Json.Dump.{Bytes, ◌>>=◌}
use stavrobot_imcp_plugin.Bridge.Session.{Config, derived_setup_timeout}
use stavrobot_imcp_plugin.Config.{
  Setting, seconds, finite, positive_timeout, validate_port, normalize_path, load_token,
  all_entries, given_setup_timeout, settings, service_config,
}
use stavrobot_imcp_plugin.Config.Paths.{IsNormal, normalize_path-IsNormal}
use stavrobot_imcp_plugin.Startup.{
  Arguments, Server, Action, starts_runtime, serves, closes_server, closes_runtime, Ending, exits,
  raises, Attempt, succeeds, fails_os, fails_otherwise, Serving, returns, interrupted, fails,
  Machine, Settings, allowlist_of, load_settings, server_of, serve, startup_failed, bind_server,
  start_runtime, make_runtime, main_with, main,
}

bind-some :
    {A B : Type 0} (o : Option A) (f : A → Option B) {b : B}
    → (o >>= f) ≡ some b
    → (a : A) × (o ≡ some a) × (f a ≡ some b)
bind-some none f h = cc
bind-some (some a) f h = (a, refl, h)

settings-allowlist :
    (ticks : ℕ) (allowlist : List Text) (call discovery connect : Setting) (setup : Option Setting)
    (close : Setting) (config : Config)
    → settings ticks allowlist call discovery connect setup close ≡ some config
    → config.allowlist ≡ allowlist
unfolding settings
settings-allowlist ticks allowlist call discovery connect setup close config h =
    let (a, _, h1) = bind-some (positive_timeout ticks call) _ h in
    let (b, _, h2) = bind-some (positive_timeout ticks discovery) _ h1 in
    let (c, _, h3) = bind-some (positive_timeout ticks connect) _ h2 in
    let (d, _, h4) = bind-some (given_setup_timeout ticks (derived_setup_timeout b c) setup) _ h3 in
    let (e, _, h5) = bind-some (positive_timeout ticks close) _ h4 in cc

finite-positive : (ticks n m : ℕ) → positive_timeout ticks (finite (pos n)) ≡ some m → m ≡ n
unfolding positive_timeout
finite-positive ticks zero m h = cc
finite-positive ticks (suc n) m h = cc

module _ (ticks : ℕ) (is_space : ℕ → Bool) (codec_message : Text → Text)
    (json_loads : Bytes → Option Value) (args : Arguments) where
  pub record IsConfigured (server : Server) : Type 0 where
    pub token : load_token is_space args.token_file ≡ some server.token
    pub port : validate_port args.port ≡ some server.port
    pub path : IsNormal server.bridge_path
    pub entries : all_entries codec_message server.config.allowlist ≡ true
    pub runtime_timeout : server.runtime_timeout ≡ server.config.call_timeout + 5 * ticks

  pub data MainEnds (m : Machine) : Ending × List Action → Type 0 where
    refused :
        (load_settings ticks is_space codec_message json_loads args ≡ none)
          ⊎ (m.makes_loop ≡ fails_os)
        → MainEnds m (exits 1, [])
    no_loop : m.makes_loop ≡ fails_otherwise → MainEnds m (raises, [])
    thread_raised : m.starts_thread ≡ fails_otherwise → MainEnds m (raises, starts_runtime ∷ [])
    bind_raised : m.binds ≡ fails_otherwise → MainEnds m (raises, starts_runtime ∷ [])
    closed_again :
        (m.starts_thread ≡ fails_os)
          ⊎ (m.binds ≡ fails_os)
          ⊎ ((s : Settings) × (load_settings ticks is_space codec_message json_loads args ≡ some s)
              × (server_of ticks is_space codec_message json_loads s ≡ none))
        → MainEnds m (exits 1, starts_runtime ∷ closes_runtime ∷ [])
    served :
        (e : Ending) (server : Server)
        → IsConfigured server
        → (m.starts_thread ≡ succeeds) × (m.binds ≡ succeeds)
        → e ≢ exits 1
        → MainEnds m (e, starts_runtime ∷ serves server ∷ closes_server ∷ closes_runtime ∷ [])

  record IsLoaded (s : Settings) : Type 0 where
    token : load_token is_space args.token_file ≡ some s.token
    port : validate_port args.port ≡ some s.port
    entries : all_entries codec_message s.config.allowlist ≡ true

  service_config-entries :
      (allowlist : List Text) (call discovery connect close : Setting) (setup : Option Setting)
      (config : Config)
      → service_config codec_message ticks allowlist call discovery connect setup close
        ≡ some config
      → all_entries codec_message config.allowlist ≡ true
  unfolding service_config
  service_config-entries allowlist call discovery connect close setup config h =
      elim (Bool-cases (all_entries codec_message allowlist)) [
        | inl good ↦
            ap (all_entries codec_message) (
              settings-allowlist ticks allowlist call discovery connect setup close config
                (rw (good, service_config) at h))
            ∙ good
        | inr bad ↦ cc (rw (bad, service_config) at h)
      ]

  load_settings-IsLoaded :
      (s : Settings)
      → load_settings ticks is_space codec_message json_loads args ≡ some s
      → IsLoaded s
  unfolding load_settings
  load_settings-IsLoaded s h =
      let (token, ht, h1) = bind-some (load_token is_space args.token_file) _ h in
      let (port, hp, h2) = bind-some (validate_port args.port) _ h1 in
      let (path, _, h3) = bind-some (normalize_path args.path) _ h2 in
      let (allowlist, _, h4) =
        bind-some (allowlist_of ticks is_space codec_message json_loads args) _ h3 in
      let (config, hc, h5) =
        bind-some
          (service_config codec_message ticks allowlist args.call_timeout (seconds (pos 3))
            (seconds (pos 3)) none (seconds (pos 2)))
          _ h4 in
      let q : record { token = token; port = port; path = path; config = config } ≡ s = cc in
      record {
        token = ht ∙ ap (λ x. some x.token) q;
        port = hp ∙ ap (λ x. some x.port) q;
        entries =
            ap (λ x. all_entries codec_message x.config.allowlist) (sym q)
            ∙ service_config-entries allowlist _ _ _ _ _ config hc;
      }

  server_of-IsConfigured :
      (s : Settings) (server : Server)
      → IsLoaded s
      → server_of ticks is_space codec_message json_loads s ≡ some server
      → IsConfigured server
  unfolding server_of
  server_of-IsConfigured s server l h =
      let (path, hp, h1) = bind-some (normalize_path s.path) _ h in
      let (timeout, ht, h2) =
        bind-some (positive_timeout ticks (finite (pos (s.config.call_timeout + 5 * ticks)))) _
          h1 in
      let q : record {
        token = s.token;
        port = s.port;
        bridge_path = path;
        config = s.config;
        runtime_timeout = timeout;
      }
          ≡ server =
        cc in
      let n = finite-positive ticks (s.config.call_timeout + 5 * ticks) timeout ht in
      record {
        token = l.token ∙ ap (λ x. some x.token) q;
        port = l.port ∙ ap (λ x. some x.port) q;
        path = subst (λ x. IsNormal x.bridge_path) q (normalize_path-IsNormal s.path path hp);
        entries = ap (λ x. all_entries codec_message x.config.allowlist) (sym q) ∙ l.entries;
        runtime_timeout = subst (λ x. x.runtime_timeout ≡ x.config.call_timeout + 5 * ticks) q n;
      }

  serve-MainEnds :
      (m : Machine) (outcome : Serving) (server : Server)
      → IsConfigured server
      → (m.starts_thread ≡ succeeds) × (m.binds ≡ succeeds)
      → MainEnds m (serve ticks is_space codec_message json_loads outcome server)
  unfolding serve
  serve-MainEnds m returns server c h = served (exits 0) server c h (λ e. cc)
  serve-MainEnds m interrupted server c h = served (exits 0) server c h (λ e. cc)
  serve-MainEnds m fails server c h = served raises server c h (λ e. cc)

  bind_server-MainEnds :
      (a : Attempt) (m : Machine) (s : Settings) (o : Option Server)
      → load_settings ticks is_space codec_message json_loads args ≡ some s
      → server_of ticks is_space codec_message json_loads s ≡ o
      → m.binds ≡ a
      → m.starts_thread ≡ succeeds
      → ((server : Server) → o ≡ some server → IsConfigured server)
      → MainEnds m (bind_server ticks is_space codec_message json_loads a m o)
  unfolding bind_server startup_failed
  bind_server-MainEnds a m s none l q e h c = closed_again (inr (inr (s, l, q)))
  bind_server-MainEnds succeeds m s (some server) l q e h c =
      serve-MainEnds m m.serving server (c server refl) (h, e)
  bind_server-MainEnds fails_os m s (some server) l q e h c = closed_again (inr (inl e))
  bind_server-MainEnds fails_otherwise m s (some server) l q e h c = bind_raised e

  start_runtime-MainEnds :
      (a : Attempt) (m : Machine) (s : Settings)
      → m.starts_thread ≡ a
      → load_settings ticks is_space codec_message json_loads args ≡ some s
      → MainEnds m (start_runtime ticks is_space codec_message json_loads a m s)
  unfolding start_runtime startup_failed
  start_runtime-MainEnds succeeds m s e l =
      bind_server-MainEnds m.binds m s _ l refl refl e
        (λ server q. server_of-IsConfigured s server (load_settings-IsLoaded s l) q)
  start_runtime-MainEnds fails_os m s e l = closed_again (inl e)
  start_runtime-MainEnds fails_otherwise m s e l = thread_raised e

  make_runtime-MainEnds :
      (a : Attempt) (m : Machine) (s : Settings)
      → m.makes_loop ≡ a
      → load_settings ticks is_space codec_message json_loads args ≡ some s
      → MainEnds m (make_runtime ticks is_space codec_message json_loads a m s)
  unfolding make_runtime
  make_runtime-MainEnds succeeds m s e l = start_runtime-MainEnds m.starts_thread m s refl l
  make_runtime-MainEnds fails_os m s e l = refused (inr e)
  make_runtime-MainEnds fails_otherwise m s e l = no_loop e

  main_with-MainEnds :
      (m : Machine) (o : Option Settings)
      → load_settings ticks is_space codec_message json_loads args ≡ o
      → MainEnds m (main_with ticks is_space codec_message json_loads m o)
  unfolding main_with
  main_with-MainEnds m none e = refused (inl e)
  main_with-MainEnds m (some s) e = make_runtime-MainEnds m.makes_loop m s refl e

  -- The bridge serves only with the token of its file, a port up to 65535, a normal path and an
  -- allowlist of valid entries, after its thread has started and its socket was bound; however the
  -- serving ends, the server is closed and then the runtime, and the status is not 1. A start that
  -- does not serve exits with status 1 before the runtime was to start, if the settings were refused or
  -- the loop failed with an OSError; or with status 1 and the runtime closed, if the thread or the
  -- binding failed with an OSError or the settings made no server; or, with nothing closed, in an
  -- exception of making the loop, starting the thread or binding that is no OSError.
  pub main_lem : (m : Machine) → MainEnds m (main ticks is_space codec_message json_loads m args)
  unfolding main
  main_lem m =
      main_with-MainEnds m (load_settings ticks is_space codec_message json_loads args) refl
