-- ===== src/Connection.antt =====
-- Discovery and the loopback connection with their teardown (stavrobot_imcp/transport.py):
-- `_ServiceNameListener`, `_validate_timeout`, `_bounded_await`, `_close_bonjour`,
-- `discover_local_service_port`, `open_loopback_connection` and `loopback_transport`. Zeroconf, the
-- clock and the sockets answer as the network says.
pub mod Teardown
pub mod Seen
pub mod Discover
pub mod Loopback
use stavrobot_imcp_plugin.Prelude.{
  ℕ, ◌+◌, ◌-◌, ◌*◌, ◌/◌, Text, text_eq, mem_text, Bool, true, false, ◌||◌, Option, none, some, List,
  [], ◌∷◌, ◌++◌, ◌&&◌, leb, min, if◌then◌else◌,
}
use stavrobot_imcp_plugin.Json.{ℤ, pos, negsuc}
use stavrobot_imcp_plugin.Config.{Setting, positive_timeout}
use stavrobot_imcp_plugin.Discovery.{ServiceInfo, select_local_service_port}

-- What the browser tells its listener.
pub data Notice : Type 0 where
  added updated removed : Text → Notice

pub discard : Text → List Text → List Text
discard name [] = []
discard name (n ∷ ns) = let rest = discard name ns in if text_eq name n then rest else n ∷ rest

pub add_name : Text → List Text → List Text
add_name name names = if mem_text name names then names else name ∷ names

-- `listener.names`, after the notices.
unfoldable pub listen : List Notice → List Text → List Text
unfolding add_name discard
listen [] names = names
listen (added name ∷ ns) names = listen ns (add_name name names)
listen (updated name ∷ ns) names = listen ns (add_name name names)
listen (removed name ∷ ns) names = listen ns (discard name names)

-- How a wait ends: with its value, an exception, past its bound, or by a cancellation of the caller.
pub data Outcome (A : Type 0) : Type 0 where
  ok : A → Outcome A
  value_error discovery_error os_error other_error cancelled : Outcome A

-- What the code does to a resource; latest first.
pub data Event : Type 0 where
  made_zeroconf made_browser : Event
  resolved : Text → Event
  closed_browser closed_zeroconf : Event
  connected : ℕ → Event
  closed_streams : Event

abbrev pub History : Type 0
History = List Event

-- An awaitable: it takes some time and returns or raises, or the caller is cancelled meanwhile.
pub data Awaited : Type 0 where
  returns raises : ℕ → Awaited
  -- The caller is cancelled at a time, and the task ends so much later.
  caller_cancelled : ℕ → ℕ → Awaited

-- `_bounded_await`: what it raises and how long the caller waits. A task that is not done by then is
-- cancelled and left; after a cancellation of the caller only what remains of the bound is waited.
pub data Waited : Type 0 where
  completed failed caller_left : ℕ → Waited

unfoldable pub bounded_await : ℕ → Awaited → Waited
bounded_await timeout (returns took) =
    if leb took timeout then completed took else completed timeout
bounded_await timeout (raises took) = if leb took timeout then failed took else completed timeout
bounded_await timeout (caller_cancelled at extra) =
    if leb at timeout then caller_left (at + min extra (timeout - at)) else completed timeout

pub record Network : Type 0 where
  -- `make_zeroconf()` and `make_browser(...)` return.
  pub makes_zeroconf : Bool
  pub makes_browser : Bool
  -- The notices of the observation window, unless the caller is cancelled in it.
  pub observed : Option (List Notice)
  -- `tuple(listener.names)`, the loop over a set: each name once, in an order of its own.
  pub ordered : List Text → List Text
  -- The clock when a name's turn comes, as time since the resolution began.
  pub elapsed : History → ℕ
  -- `async_get_service_info` for a name within its bound: the result may be missing.
  pub service_info : History → Text → ℕ → Outcome (Option ServiceInfo)
  -- Closing the browser and zeroconf.
  pub close_browser : Awaited
  pub close_zeroconf : Awaited

-- `_validate_timeout`, which is `_positive_timeout` with another error.
unfoldable pub validate_timeout : ℕ → Setting → Option ℕ
validate_timeout ticks s = positive_timeout ticks s

unfoldable pub validate_target_port : ℤ → Option ℕ
validate_target_port (pos n) = if leb 1 n && leb n 65535 then some n else none
validate_target_port (negsuc n) = none

unfoldable pub is_caller_left : Waited → Bool
is_caller_left (caller_left n) = true
is_caller_left _ = false

-- One round of `_close_bonjour`: whether the caller was cancelled in it, and what was done.
unfoldable pub close_resource : Bool → ℕ → Awaited → Event → History → Bool × History
unfolding bounded_await is_caller_left
close_resource false timeout answer e h = (false, h)
close_resource true timeout answer e h = (is_caller_left (bounded_await timeout answer), e ∷ h)

module _ (net : Network) where
  -- Both rounds, whatever the first one met; the flags tell which resources were made.
  unfoldable pub close_bonjour : Bool → Bool → ℕ → History → Bool × History
  unfolding close_resource
  close_bonjour browser zeroconf timeout h =
      let (c, h1) = close_resource browser timeout net.close_browser closed_browser h in
      let (d, h2) = close_resource zeroconf timeout net.close_zeroconf closed_zeroconf h1 in
      (c || d, h2)

  -- The result of one `wait_for(get_info(...))`; every exception is a DiscoveryError.
  info_of : Outcome (Option ServiceInfo) → Outcome ServiceInfo
  info_of (ok (some info)) = ok info
  info_of (ok none) = discovery_error
  info_of cancelled = cancelled
  info_of _ = discovery_error

  push_info :
      ServiceInfo → Outcome (List ServiceInfo) × History → Outcome (List ServiceInfo) × History
  push_info info (ok infos, h) = (ok (info ∷ infos), h)
  push_info info (r, h) = (r, h)

  -- After one result: the rest of the loop, or the error.
  after_info :
      Outcome ServiceInfo
      → History
      → Outcome (List ServiceInfo) × History
      → Outcome (List ServiceInfo) × History
  unfolding push_info
  after_info (ok info) h rest = push_info info rest
  after_info value_error h rest = (value_error, h)
  after_info discovery_error h rest = (discovery_error, h)
  after_info os_error h rest = (os_error, h)
  after_info other_error h rest = (other_error, h)
  after_info cancelled h rest = (cancelled, h)

  -- The loop over the names: the results in order.
  unfoldable pub resolve_all : ℕ → List Text → History → Outcome (List ServiceInfo) × History
  unfolding info_of after_info
  resolve_all timeout [] h = (ok [], h)
  resolve_all timeout (name ∷ names) h = elim (leb timeout (net.elapsed h)) [
    | true ↦ (discovery_error, h)
    | false ↦
        after_info (info_of (net.service_info h name (timeout - net.elapsed h))) h
          (resolve_all timeout names (resolved name ∷ h))
  ]

  unfoldable pub port_of : Option ℕ → Outcome ℕ
  port_of none = discovery_error
  port_of (some port) = ok port

  module _ (is_space : ℕ → Bool) (casefold : Text → Text) (hosts : List Text) where
    unfoldable pub selected_port : Outcome (List ServiceInfo) × History → Outcome ℕ × History
    unfolding port_of
    selected_port (ok infos, h) =
        (port_of (select_local_service_port is_space casefold infos hosts), h)
    selected_port (value_error, h) = (value_error, h)
    selected_port (discovery_error, h) = (discovery_error, h)
    selected_port (os_error, h) = (os_error, h)
    selected_port (other_error, h) = (other_error, h)
    selected_port (cancelled, h) = (cancelled, h)

    unfoldable pub resolve_observed : ℕ → Option (List Notice) → History → Outcome ℕ × History
    unfolding selected_port resolve_all listen
    resolve_observed timeout none h = (cancelled, h)
    resolve_observed timeout (some notices) h =
        selected_port (resolve_all timeout (net.ordered (listen notices [])) h)

    -- `finally`: a cancellation in the teardown replaces what the block was about to do.
    unfoldable pub torn_down : Outcome ℕ → Bool × History → Outcome ℕ × History
    torn_down r (true, h) = (cancelled, h)
    torn_down r (false, h) = (r, h)

    unfoldable pub finish : Bool → Bool → ℕ → Outcome ℕ × History → Outcome ℕ × History
    unfolding torn_down
    finish browser zeroconf timeout (r, h) = torn_down r (close_bonjour browser zeroconf timeout h)

    -- The `try` block and its `finally`, with the validated timeouts.
    unfoldable pub discover_within : ℕ → ℕ → Outcome ℕ × History
    unfolding close_bonjour resolve_observed finish
    discover_within timeout cleanup = elim net.makes_zeroconf [
      | false ↦ finish false false cleanup (other_error, [])
      | true ↦ elim net.makes_browser [
        | false ↦ finish false true cleanup (other_error, made_zeroconf ∷ [])
        | true ↦
            finish true true cleanup
              (resolve_observed timeout net.observed (made_browser ∷ made_zeroconf ∷ []))
      ]
    ]

    unfoldable pub discover_validated : Option ℕ → Option ℕ → Outcome ℕ × History
    unfolding discover_within
    discover_validated (some timeout) (some cleanup) = discover_within timeout cleanup
    discover_validated (some timeout) none = (value_error, [])
    discover_validated none cleanup = (value_error, [])

    unfoldable pub discover_local_service_port : ℕ → Setting → Setting → Outcome ℕ × History
    unfolding discover_validated validate_timeout
    discover_local_service_port ticks timeout close_timeout =
        discover_validated (validate_timeout ticks timeout) (validate_timeout ticks close_timeout)
