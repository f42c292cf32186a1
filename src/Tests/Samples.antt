-- ===== src/Tests/Samples.antt =====
-- Sample configurations, worlds, environments and requests.
use stavrobot_imcp_plugin.Prelude.{codes, true, false, none, some, List, [], ◌∷◌, ◌==◌}
use stavrobot_imcp_plugin.Json.{bool, str, obj, pos, Fields, end, field, null}
use stavrobot_imcp_plugin.Bridge.Effects.{initialized, opened, ok, World, ready, absent, Env, found}
use stavrobot_imcp_plugin.Bridge.Session.{Config}
use stavrobot_imcp_plugin.Bridge.Service.{Sdk}
use stavrobot_imcp_plugin.Http.{done, threw, timed_out, Exchange}
use stavrobot_imcp_plugin.Client.{Io, responded, read_bytes}
use stavrobot_imcp_plugin.Discovery.{ServiceInfo, BonjourService}

abbrev pub sample_sdk : Sdk
sample_sdk = record { is_transport_code = λ c. false; codec_message = λ s. codes "cannot encode" }

-- A session that comes up, and a tool call that times out.
abbrev pub sample_env : Env
sample_env = record {
  factory = λ h. ready;
  enter = λ h. record { answer = record { took = 1; result = ok tt }; late = false };
  initialize = λ h. record { took = 1; result = ok tt };
  call_tool = λ h. record {
    took = 1000;
    result = ok (record { content = str (codes "done"); is_error = false });
  };
  list_tools = λ h. record {
    took = 1;
    result = ok (record {
      raw_tools = found (
          record { name = some (codes "search"); content = obj end }
          ∷ record { name = some (codes "delete"); content = null }
          ∷ []);
      raw_cursor = absent;
    });
  };
  exit = λ h. 1;
}

abbrev pub sample_config : Config
sample_config = record {
  allowlist = codes "search" ∷ [];
  call_timeout = 10;
  discovery_timeout = 5;
  connect_timeout = 5;
  setup_timeout = 15;
  close_timeout = 2;
}

abbrev pub sample_world : World
sample_world = record {
  service = record {
    session_owner = none;
    session = none;
    session_known_dead = false;
    last_app_reachable = none;
  };
  clock = 0;
  made_contexts = 0;
  history = [];
}

abbrev pub sample_request : Fields
sample_request =
    field (codes "operation") (str (codes "call_tool"))
      (field (codes "name") (str (codes "search")) end)

-- The same world with session 0 established.
abbrev pub up_world : World
up_world = record {
  service = record {
    session_owner = some (record { id = 0; started = true; entered = true });
    session = some 0;
    session_known_dead = false;
    last_app_reachable = some true;
  };
  clock = 2;
  made_contexts = 1;
  history = initialized 0 1 5 ∷ opened 0 0 5 ∷ [];
}

abbrev pub sample_payload : Fields
sample_payload = field (codes "ok") (bool true) (
    field (codes "result") (str (codes "a result of some forty characters or more"))
      (field (codes "truncated") (bool false) end))

-- A call of an allowed tool that the runtime does not complete.
abbrev pub sample_exchange : Exchange
sample_exchange = record {
  authorization = some (codes "Bearer abc");
  transfer_encoding = none;
  content_length = some (codes "2");
  url_path = some (codes "/bridge");
  bridge_path = codes "/bridge";
  bridge_token = codes "abc";
  parse_int = λ s. some (pos 2);
  read = λ n. done (codes "{}");
  json_loads = λ bs. some (obj sample_request);
  run = λ request. threw timed_out;
  write = λ replies. done tt;
}

-- A configured client whose bridge answers with an empty object.
abbrev pub sample_io : Io
sample_io = record {
  config = some (
      obj (
        field (codes "bridge_url") (str (codes "http://host"))
          (field (codes "bridge_token") (str (codes "xyz")) end)));
  is_space = λ c. c == 32;
  urlsplit = λ s. some (record {
    scheme = codes "http";
    netloc = codes "host";
    username = none;
    password = none;
    hostname = some (codes "host");
  });
  can_request = λ request. true;
  has_timer = true;
  opener = λ request. responded (read_bytes (codes "{}"));
  json_loads = λ bs. some (obj end);
}

-- A local service, reported twice, and one of another host.
abbrev pub sample_infos : List ServiceInfo
sample_infos =
    record {
      name = some (codes "imcp");
      server = some (codes "mac.local.");
      port = some (pos 4000);
    }
    ∷ record {
      name = some (codes "imcp");
      server = some (codes "other.local.");
      port = some (pos 0);
    }
    ∷ record {
      name = some (codes "imcp");
      server = some (codes "mac.local.");
      port = some (pos 4000);
    }
    ∷ []

abbrev pub sample_service : BonjourService
sample_service = record { name = codes "imcp"; server = codes "mac.local."; port = 4000 }
