-- ===== src/Lib.antt =====
-- The iMCP bridge: a plugin (imcp_call, imcp_list_tools) posts one operation over HTTP with the client
-- of _bridge.py; the host bridge (bridge/server.py) authenticates it, runs it on one persistent MCP
-- session with the iMCP app, and answers with bounded JSON.
--
-- Parts and files:
-- - Prelude: names of the libraries passed on, Boolean tests on native numbers, lists, texts. A
--   Python string is the list of its code points, so that lone surrogates are texts too.
-- - Json: Python values. Json.Dump is `_dump_json` with `json.dumps` and UTF-8, Json.Convert is
--   `_json_value`; Json.Dump.Write says what is written for values without surrogates.
-- - Response: Payload has the envelopes, Bounded is `_bounded_json_value`, Encode is `_encode_json`
--   (all of bridge/server.py), each with its proofs in child modules.
-- - Bridge: Effects has the exceptions, the clock and the outside world of `BridgeService`
--   (bridge/server.py); a method is a function from a world to an outcome and the next world, and an
--   environment decides what the session factory, the SDK and the app do as a function of what
--   happened before. Session is the session under the service's lock, with `_SessionOwner` as its
--   callers see it; Responses and Service are the operations and `execute`. Effects.Keeps and
--   Effects.Triples carry the rules for preservation and for pre- and postconditions.
-- - Http: `BridgeRequestHandler` (bridge/server.py), with sockets, headers, the JSON parser and the
--   runtime as parameters.
-- - Client: the client of _bridge.py; Client.Tools are imcp_call/run.py and imcp_list_tools/run.py.
-- - Discovery: the choice of the local Bonjour service (stavrobot_imcp/transport.py).
-- - Transport: the framed streams over the loopback connection (stavrobot_imcp/transport.py).
-- - Connection: `discover_local_service_port` with its teardown, and in Connection.Loopback the
--   connection and `loopback_transport` (stavrobot_imcp/transport.py). The network is a parameter that
--   answers as a function of what happened before.
-- - Owner: the task of `_SessionOwner` and its callers (bridge/server.py) as a step relation; Owner.Once
--   is its invariant, Owner.Ends is about its schedules. Runtime: `start`, `run`, `close` and the
--   thread of `AsyncBridgeRuntime` (bridge/server.py) as a step relation, a step being what happens
--   under the runtime's lock or between two waits; Runtime.Lifecycle is the life cycle that its users
--   see.
-- - Startup: `main` and the settings of `BridgeHTTPServer` (bridge/server.py): what is read, started,
--   served and closed, in which order.
-- - Probe: the values, the monad and the app's Info.plist of scripts/probe_imcp.py; Probe.Output reads
--   the output of pgrep and lsof, Probe.Process is the selection of the running app, Probe.Listing is
--   `_list_all_tools`, Probe.Capture is `_run` and the status of `main`.
-- - Install: scripts/run_launchd_bridge.py; Install.Templates renders and compares property lists,
--   Install.Host has the files and the jobs, Install.Installer is `main` of
--   scripts/install_login_services.py.
-- - Config: timeouts, path, port, token and allowlist (bridge/server.py).
-- - Tests: samples and runs of the theorems on them.
--
-- How they meet: Client hands a request to an opener; Http takes one from a socket and gives a parsed
-- object to a runtime that runs `Bridge.Service.execute`; its payload is written by
-- `Response.Encode.encode_json`.
--
-- Numbers: times are whole numbers of a small unit. The loop of `_list_tools` is recursion on the
-- pages left, from `MAX_LIST_PAGES`, as in the source; `Json.Dump.digits` has one more than the number as fuel, and uses one a digit;
-- the listing of the probe
-- has fuel for its rounds, each with a cursor that was not seen before, so that one round more than the
-- server has cursors is enough; the probe polls 30 times and the installer asks 30 times, as in the
-- source; every other function is structural.
--
-- Left out: the socket server under `BridgeHTTPServer`, the parsing of arguments, what a request
-- returns through `AsyncBridgeRuntime.run` and how long its waits last, recursion limits of Python, the
-- layout of the probe's document and its arguments, and the shell scripts. `json.loads`, `int`,
-- `urlsplit`, `str.isspace`, `str.isalnum`, plistlib, launchctl, pgrep, lsof, zeroconf and the file
-- system are parameters, so that the theorems hold for each.
pub mod Prelude
pub mod Json
pub mod Response
pub mod Bridge
pub mod Config
pub mod Http
pub mod Client
pub mod Discovery
pub mod Transport
pub mod Connection
pub mod Owner
pub mod Runtime
pub mod Startup
pub mod Probe
pub mod Install
mod Tests
