-- ===== src/Tests/Connecting.antt =====
-- Discovery and the transport context (stavrobot_imcp/transport.py) on a network with one service.
use stavrobot_imcp_plugin.Prelude.{
  ℕ, Text, codes, text_eq, mem_text, Bool, true, false, none, some, List, [], ◌∷◌, ◌≡◌, refl, ◌==◌,
}
use stavrobot_imcp_plugin.Json.{pos}
use stavrobot_imcp_plugin.Config.{seconds, rstrip, positive_timeout}
use stavrobot_imcp_plugin.Discovery.{
  ServiceInfo, lookup, set_service, select_local_service, select_local_service_port,
  collect_services, service_record, key_of, normalize_hostname, local_names,
}
use stavrobot_imcp_plugin.Connection.{
  added, removed, ok, returns, Network, listen, resolve_all, resolve_observed, close_bonjour,
  discover_within, validate_timeout, discover_local_service_port,
}
use stavrobot_imcp_plugin.Connection.Discover.{Discovered, discover_local_service_port-Discovered}
use stavrobot_imcp_plugin.Connection.Loopback.{Context, dialed, loopback_transport}
use stavrobot_imcp_plugin.Connection.Loopback.Closed.{IsClosed, loopback_transport-IsClosed}

abbrev is_blank : ℕ → Bool
is_blank c = c == 32

abbrev same_text : Text → Text
same_text s = s

abbrev hosts : List Text
hosts = codes "mac" ∷ []

abbrev service : ServiceInfo
service = record {
  name = some (codes "imcp");
  server = some (codes "mac.local.");
  port = some (pos 4000);
}

abbrev network : Network
network = record {
  makes_zeroconf = true;
  makes_browser = true;
  observed = some (added (codes "imcp") ∷ added (codes "x") ∷ removed (codes "x") ∷ []);
  ordered = λ names. names;
  elapsed = λ h. 1;
  service_info = λ h name bound. ok (some service);
  close_browser = returns 1;
  close_zeroconf = returns 5000;
}

abbrev context : Context
context = record {
  ticks = 1000;
  discovery_timeout = seconds (pos 3);
  connect_timeout = seconds (pos 3);
  close_timeout = seconds (pos 2);
  read_timeout = none;
  discovery = none;
  dial = λ port. dialed;
  body = ok tt;
  send_failed = false;
  close_streams = returns 1;
}

discovers :
    (discover_local_service_port network is_blank same_text hosts 1000
      (seconds (pos 3))
      (seconds (pos 2))).0
    ≡ ok 4000
unfolding discover_local_service_port select_local_service_port discover_within resolve_observed
    resolve_all listen close_bonjour validate_timeout positive_timeout select_local_service
    collect_services service_record local_names normalize_hostname key_of lookup set_service text_eq
    mem_text rstrip
discovers = refl

discover_local_service_port-Discovered_example :
    (t : ℕ) × (validate_timeout 1000 (seconds (pos 3)) ≡ some t)
    × Discovered network is_blank same_text hosts t 4000
discover_local_service_port-Discovered_example =
    discover_local_service_port-Discovered network is_blank same_text hosts (λ names name. refl)
      1000 (seconds (pos 3)) (seconds (pos 2)) 4000 discovers

loopback_transport-IsClosed_example :
    IsClosed false (loopback_transport network is_blank same_text hosts context).1
loopback_transport-IsClosed_example =
    loopback_transport-IsClosed network is_blank same_text hosts context
