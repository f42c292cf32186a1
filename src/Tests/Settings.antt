-- ===== src/Tests/Settings.antt =====
-- Configuration, discovery and transport (bridge/server.py, stavrobot_imcp/transport.py) on the samples.
use stavrobot_imcp_plugin.Prelude.{
  ◌≤◌, codes, text_eq, mem_text, has_code, true, some, [], ◌∷◌, All, ◌==◌, ◌≡◌, refl, arith,
}
use stavrobot_imcp_plugin.Json.{pos, Items, str, arr, nil, cons}
use stavrobot_imcp_plugin.Json.Dump.{utf8}
use stavrobot_imcp_plugin.Bridge.Responses.{validate_tool_name}
use stavrobot_imcp_plugin.Startup.{Arguments, Machine, succeeds, interrupted, main}
use stavrobot_imcp_plugin.Startup.Served.{MainEnds, main_lem}
use stavrobot_imcp_plugin.Config.{
  seconds, normalize_path, has_url_separator, rstrip, load_token, any_space, allowlist_entries,
  configured, is_entry, collect,
}
use stavrobot_imcp_plugin.Config.Paths.{IsNormal, normalize_path-IsNormal, load_token-padded}
use stavrobot_imcp_plugin.Discovery.{
  lookup, set_service, select_local_service, collect_services, service_record, key_of,
  normalize_hostname, local_names,
}
use stavrobot_imcp_plugin.Discovery.Selected.{AgreesWith, select_local_service_lem}
use stavrobot_imcp_plugin.Config.Allowlist.{IsAllowed, IsKept, allowlist_entries_lem}
use stavrobot_imcp_plugin.Transport.{receive, message, send_all}
use stavrobot_imcp_plugin.Transport.Frames.{
  IsReceived, receive-IsReceived, receive_n, receive_n-send_all,
}
use stavrobot_imcp_plugin.Prelude.{map, ◌++◌, has_code, false, none}
use stavrobot_imcp_plugin.Tests.Samples.{sample_infos, sample_service}

normalize_path-IsNormal_example : IsNormal (codes "/bridge")
unfolding normalize_path has_url_separator has_code rstrip
normalize_path-IsNormal_example = normalize_path-IsNormal (codes "bridge//") (codes "/bridge") refl

load_token-padded_example :
    load_token (λ c. c == 32) (some (codes "  secret ")) ≡ some (codes "secret")
unfolding any_space
load_token-padded_example =
    load_token-padded (λ c. c == 32) (codes "  ") (codes " ") (codes "secret") (refl, (refl, tt))
      (refl, tt) (ground arith) refl

select_local_service_lem_example :
    (mem_text
        (normalize_hostname (λ c. c == 32) (λ s. s) (codes "mac.local."))
        (local_names (λ c. c == 32) (λ s. s) (codes "mac" ∷ []))
      ≡ true)
    × (1 ≤ 4000)
    × (4000 ≤ 65535)
    × All
        (AgreesWith
          (λ c. c == 32)
          (λ s. s)
          (local_names (λ c. c == 32) (λ s. s) (codes "mac" ∷ []))
          sample_service)
        sample_infos
unfolding select_local_service collect_services service_record local_names normalize_hostname key_of
    lookup set_service text_eq mem_text
select_local_service_lem_example =
    select_local_service_lem (λ c. c == 32) (λ s. s) sample_infos (codes "mac" ∷ []) sample_service
      refl

allowlist_entries_lem_example :
    All IsAllowed (codes "search" ∷ codes "*" ∷ [])
    × (xs : Items) × (configured
          (λ s. s)
          (arr (cons (str (codes "*")) (cons (str (codes "search")) nil)))
        ≡ some xs)
    × IsKept (codes "search" ∷ codes "*" ∷ []) xs
unfolding allowlist_entries collect is_entry text_eq mem_text has_code utf8 validate_tool_name
allowlist_entries_lem_example =
    allowlist_entries_lem (λ s. s) (arr (cons (str (codes "*")) (cons (str (codes "search")) nil)))
      (codes "search" ∷ codes "*" ∷ []) refl

receive-IsReceived_example :
    IsReceived
      (λ bs. bs)
      10
      (record { pending = codes "{}" ++ 10 ∷ []; read_closed = false })
      (receive (λ bs. bs) 10 none (record { pending = codes "{}" ++ 10 ∷ []; read_closed = false }))
receive-IsReceived_example =
    receive-IsReceived (λ bs. bs) 10 none
      (record { pending = codes "{}" ++ 10 ∷ []; read_closed = false })

receive_n-send_all_example :
    receive_n
      (λ bs. bs)
      10
      2
      (record {
        pending =
            (send_all
              (λ bs. bs)
              (codes "{}" ∷ codes "[1]" ∷ [])
              (record { written = []; write_closed = false; closing = false })).written;
        read_closed = false;
      })
    ≡ (
      map (λ item. message (item ++ 10 ∷ [])) (codes "{}" ∷ codes "[1]" ∷ []),
      record { pending = []; read_closed = false },
    )
unfolding has_code
receive_n-send_all_example =
    receive_n-send_all (λ bs. bs) (λ bs. bs) 10 (codes "{}" ∷ codes "[1]" ∷ [])
      ((refl, omega arith), ((refl, omega arith), tt))

-- The default port and path, one allowed tool, and a user who ends the server.
abbrev sample_arguments : Arguments
sample_arguments = record {
  token_file = some (codes "secret");
  port = pos 8766;
  path = codes "/bridge";
  allow_tool = some (codes "search" ∷ []);
  allowlist_file = none;
  call_timeout = seconds (pos 10);
}

abbrev sample_machine : Machine
sample_machine = record {
  makes_loop = succeeds;
  starts_thread = succeeds;
  binds = succeeds;
  serving = interrupted;
}

main_lem_example :
    MainEnds 1000
      (λ c. c == 32)
      (λ s. s)
      (λ raw. none)
      sample_arguments
      sample_machine
      (main 1000 (λ c. c == 32) (λ s. s) (λ raw. none) sample_machine sample_arguments)
main_lem_example =
    main_lem 1000 (λ c. c == 32) (λ s. s) (λ raw. none) sample_arguments sample_machine
