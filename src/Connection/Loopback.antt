-- ===== src/Connection/Loopback.antt =====
-- `open_loopback_connection` and `loopback_transport` (stavrobot_imcp/transport.py). A connection has
-- no host: it is always to LOOPBACK_HOST.
pub mod Closed
use stavrobot_imcp_plugin.Prelude.{
  ℕ, Text, Bool, true, false, Option, none, some, List, [], ◌∷◌, if◌then◌else◌,
}
use stavrobot_imcp_plugin.Json.{ℤ, pos}
use stavrobot_imcp_plugin.Config.{Setting, finite}
use stavrobot_imcp_plugin.Connection.{
  Outcome, ok, value_error, discovery_error, os_error, other_error, cancelled, connected,
  closed_streams, History, Awaited, Waited, completed, failed, caller_left, bounded_await, Network,
  validate_timeout, validate_target_port, discover_local_service_port,
}

-- How `asyncio.open_connection` under `wait_for` ends.
pub data Dial : Type 0 where
  dialed dial_timed_out dial_os_error dial_failed dial_cancelled : Dial

-- LoopbackConnectionError is an OSError.
dial_outcome : ℕ → Dial → History → Outcome ℕ × History
dial_outcome port dialed h = (ok port, connected port ∷ h)
dial_outcome port dial_timed_out h = (os_error, h)
dial_outcome port dial_os_error h = (os_error, h)
dial_outcome port dial_failed h = (other_error, h)
dial_outcome port dial_cancelled h = (cancelled, h)

dial_port : (ℕ → Dial) → Option ℕ → Option ℕ → History → Outcome ℕ × History
unfolding dial_outcome
dial_port dial (some port) (some timeout) h = dial_outcome port (dial port) h
dial_port dial (some port) none h = (value_error, h)
dial_port dial none timeout h = (value_error, h)

unfoldable pub open_loopback_connection :
    ℕ → (ℕ → Dial) → ℤ → Setting → History → Outcome ℕ × History
unfolding dial_port validate_target_port validate_timeout
open_loopback_connection ticks dial port timeout h =
    dial_port dial (validate_target_port port) (validate_timeout ticks timeout) h

-- The context, around what its user does: the body runs on the streams, and then they are closed.
pub record Context : Type 0 where
  pub ticks : ℕ
  pub discovery_timeout : Setting
  pub connect_timeout : Setting
  pub close_timeout : Setting
  pub read_timeout : Option Setting
  -- A discovery of the caller's own.
  pub discovery : Option (Outcome ℤ)
  pub dial : ℕ → Dial
  pub body : Outcome (Unit {0})
  -- A write of the body failed, and the write stream counts as closed already.
  pub send_failed : Bool
  pub close_streams : Awaited

-- `finally`: what the teardown raises replaces the outcome.
after_close : Outcome (Unit {0}) → Waited → Outcome (Unit {0})
after_close r (completed n) = r
after_close r (failed n) = other_error
after_close r (caller_left n) = cancelled

-- `_close_tcp_streams`: `aclose` of the write stream returns at once if it counts as closed.
close_tcp_streams : Bool → History → History
close_tcp_streams true h = h
close_tcp_streams false h = closed_streams ∷ h

module _ (net : Network) (is_space : ℕ → Bool) (casefold : Text → Text) (hosts : List Text)
    (c : Context) where
  as_port : Outcome ℕ × History → Outcome ℤ × History
  as_port (ok port, h) = (ok (pos port), h)
  as_port (value_error, h) = (value_error, h)
  as_port (discovery_error, h) = (discovery_error, h)
  as_port (os_error, h) = (os_error, h)
  as_port (other_error, h) = (other_error, h)
  as_port (cancelled, h) = (cancelled, h)

  discover_port : ℕ → Option (Outcome ℤ) → Outcome ℤ × History
  unfolding as_port discover_local_service_port
  discover_port cleanup (some r) = (r, [])
  discover_port cleanup none = as_port (
      discover_local_service_port net is_space casefold hosts c.ticks c.discovery_timeout
        (finite (pos cleanup)))

  run_body : ℕ → Outcome ℕ × History → Outcome (Unit {0}) × History
  unfolding after_close bounded_await close_tcp_streams
  run_body cleanup (ok port, h) = (
    after_close c.body (bounded_await cleanup c.close_streams),
    close_tcp_streams c.send_failed h,
  )
  run_body cleanup (value_error, h) = (value_error, h)
  run_body cleanup (discovery_error, h) = (discovery_error, h)
  run_body cleanup (os_error, h) = (os_error, h)
  run_body cleanup (other_error, h) = (other_error, h)
  run_body cleanup (cancelled, h) = (cancelled, h)

  connect_to : ℕ → Outcome ℤ × History → Outcome (Unit {0}) × History
  unfolding run_body open_loopback_connection
  connect_to cleanup (ok port, h) =
      run_body cleanup (open_loopback_connection c.ticks c.dial port c.connect_timeout h)
  connect_to cleanup (value_error, h) = (value_error, h)
  connect_to cleanup (discovery_error, h) = (discovery_error, h)
  connect_to cleanup (os_error, h) = (os_error, h)
  connect_to cleanup (other_error, h) = (other_error, h)
  connect_to cleanup (cancelled, h) = (cancelled, h)

  with_cleanup : Option ℕ → Outcome (Unit {0}) × History
  unfolding connect_to discover_port
  with_cleanup none = (value_error, [])
  with_cleanup (some cleanup) = connect_to cleanup (discover_port cleanup c.discovery)

  valid_read_timeout : Option Setting → Bool
  unfolding validate_timeout
  valid_read_timeout none = true
  valid_read_timeout (some s) = elim (validate_timeout c.ticks s) [ none ↦ false | some t ↦ true ]

  unfoldable pub loopback_transport : Outcome (Unit {0}) × History
  unfolding with_cleanup valid_read_timeout validate_timeout
  loopback_transport =
      if valid_read_timeout c.read_timeout
      then with_cleanup (validate_timeout c.ticks c.close_timeout)
      else (value_error, [])
