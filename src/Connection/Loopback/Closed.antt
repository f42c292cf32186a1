-- ===== src/Connection/Loopback/Closed.antt =====
-- The streams of a context are closed after its body (stavrobot_imcp/transport.py).
use stavrobot_imcp_plugin.Prelude.{
  ℕ, ◌≤◌, Text, Bool, true, false, Option, none, some, List, [], ◌∷◌, ◌≡◌, ◌≢◌, refl, ◌∙◌, inl, inr,
  arith, Bool-cases,
}
use stavrobot_imcp_plugin.Json.{ℤ, pos, negsuc}
use stavrobot_imcp_plugin.Config.{Setting, finite}
use stavrobot_imcp_plugin.Connection.{
  Outcome, ok, value_error, discovery_error, os_error, other_error, cancelled, Event, made_zeroconf,
  made_browser, connected, closed_streams, History, Network, validate_timeout, validate_target_port,
  discover_local_service_port, close_bonjour, close_resource, finish, discover_within,
  discover_validated,
}
use stavrobot_imcp_plugin.Connection.Teardown.{count, finish-history, resolve_observed-count}
use stavrobot_imcp_plugin.Connection.Loopback.{
  Dial, dialed, dial_timed_out, dial_os_error, dial_failed, dial_cancelled, dial_outcome, dial_port,
  open_loopback_connection, Context, close_tcp_streams, as_port, discover_port, run_body,
  connect_to, with_cleanup, valid_read_timeout, loopback_transport,
}

abbrev pub touches_streams : Event → Bool
touches_streams (connected port) = true
touches_streams closed_streams = true
touches_streams _ = false

-- Neither a connection nor the end of one.
abbrev pub NoConnection : History → Type 0
NoConnection h = count touches_streams h ≡ 0

-- No connection was opened, or one to a valid port, and its streams were closed last, or left open
-- after a write that failed.
pub data IsClosed (send_failed : Bool) : History → Type 0 where
  unopened : {h : History} → NoConnection h → IsClosed send_failed h
  closed_after :
      {h : History} (port : ℕ)
      → 1 ≤ port
      → port ≤ 65535
      → NoConnection h
      → send_failed ≡ false
      → IsClosed send_failed (closed_streams ∷ connected port ∷ h)
  left_open :
      {h : History} (port : ℕ)
      → 1 ≤ port
      → port ≤ 65535
      → NoConnection h
      → send_failed ≡ true
      → IsClosed send_failed (connected port ∷ h)

-- How an attempt to connect ends: with a valid port, or with an error and nothing opened.
data Opened (h : History) : Outcome ℕ × History → Type 0 where
  opened : (port : ℕ) → 1 ≤ port → port ≤ 65535 → Opened h (ok port, connected port ∷ h)
  refused : (r : Outcome ℕ) → ((port : ℕ) → r ≢ ok port) → Opened h (r, h)

validate_target_port-bounds :
    (port : ℤ) (n : ℕ) → validate_target_port port ≡ some n → (1 ≤ n) × (n ≤ 65535)
unfolding validate_target_port
validate_target_port-bounds (pos k) n h = ground arith
validate_target_port-bounds (negsuc k) n h = cc

dial_outcome-Opened :
    (port : ℕ) (d : Dial) (h : History) → 1 ≤ port → port ≤ 65535 → Opened h (dial_outcome port d h)
unfolding dial_outcome
dial_outcome-Opened port dialed h lo hi = opened port lo hi
dial_outcome-Opened port dial_timed_out h lo hi = refused os_error (λ p e. cc)
dial_outcome-Opened port dial_os_error h lo hi = refused os_error (λ p e. cc)
dial_outcome-Opened port dial_failed h lo hi = refused other_error (λ p e. cc)
dial_outcome-Opened port dial_cancelled h lo hi = refused cancelled (λ p e. cc)

dial_port-Opened :
    (dial : ℕ → Dial) (port timeout : Option ℕ) (h : History)
    → ((n : ℕ) → port ≡ some n → (1 ≤ n) × (n ≤ 65535))
    → Opened h (dial_port dial port timeout h)
unfolding dial_port
dial_port-Opened dial (some port) (some timeout) h bounds =
    dial_outcome-Opened port (dial port) h (bounds port refl).0 (bounds port refl).1
dial_port-Opened dial (some port) none h bounds = refused value_error (λ p e. cc)
dial_port-Opened dial none timeout h bounds = refused value_error (λ p e. cc)

open_loopback_connection-Opened :
    (ticks : ℕ) (dial : ℕ → Dial) (port : ℤ) (timeout : Setting) (h : History)
    → Opened h (open_loopback_connection ticks dial port timeout h)
unfolding open_loopback_connection
open_loopback_connection-Opened ticks dial port timeout h =
    dial_port-Opened dial (validate_target_port port) (validate_timeout ticks timeout) h
      (validate_target_port-bounds port)

nothing : NoConnection []
unfolding count
nothing = refl

module _ (net : Network) (is_space : ℕ → Bool) (casefold : Text → Text) (hosts : List Text) where
  close_bonjour-touches :
      (b z : Bool) (t : ℕ) (h : History)
      → count touches_streams (close_bonjour net b z t h).1 ≡ count touches_streams h
  unfolding close_bonjour close_resource count
  close_bonjour-touches true true t h = refl
  close_bonjour-touches true false t h = refl
  close_bonjour-touches false true t h = refl
  close_bonjour-touches false false t h = refl

  finish-touches :
      (b z : Bool) (t : ℕ) (r : Outcome ℕ × History)
      → count touches_streams (finish net is_space casefold hosts b z t r).1
        ≡ count touches_streams r.1
  finish-touches b z t r =
      rw (finish-history net is_space casefold hosts b z t r) (close_bonjour-touches b z t r.1)

  discover_within-touches :
      (timeout cleanup : ℕ)
      → NoConnection (discover_within net is_space casefold hosts timeout cleanup).1
  unfolding discover_within
  discover_within-touches timeout cleanup = elim (Bool-cases net.makes_zeroconf) [
    | inr broken ↦
        rw (broken, discover_within)
          (finish-touches false false cleanup (other_error, []) ∙ unfold count in refl)
    | inl zeroconf ↦
        rw (zeroconf, discover_within)
          (elim (Bool-cases net.makes_browser) [
            | inr broken ↦
                rw (broken, discover_within)
                  (finish-touches false true cleanup (other_error, made_zeroconf ∷ [])
                    ∙ unfold count in refl)
            | inl browser ↦
                rw (browser, discover_within)
                  (finish-touches true true cleanup _
                    ∙ resolve_observed-count net touches_streams (λ _. refl) is_space casefold hosts
                        timeout net.observed (made_browser ∷ made_zeroconf ∷ [])
                    ∙ unfold count in refl)
          ])
  ]

  discover_local_service_port-touches :
      (ticks : ℕ) (timeout close_timeout : Setting)
      → NoConnection
          (discover_local_service_port net is_space casefold hosts ticks timeout close_timeout).1
  unfolding discover_local_service_port
  discover_local_service_port-touches ticks timeout close_timeout =
      go (validate_timeout ticks timeout) (validate_timeout ticks close_timeout)
    where
      go : (t c : Option ℕ) → NoConnection (discover_validated net is_space casefold hosts t c).1
      go (some t) (some c) = unfold discover_validated in discover_within-touches t c
      go (some t) none = unfold discover_validated in unfold count in refl
      go none c = unfold discover_validated in unfold count in refl

  module _ (c : Context) where
    run_body-IsClosed :
        (cleanup : ℕ) (h : History) (x : Outcome ℕ × History)
        → NoConnection h
        → Opened h x
        → IsClosed c.send_failed (run_body net is_space casefold hosts c cleanup x).1
    unfolding run_body close_tcp_streams
    run_body-IsClosed cleanup h (ok port, h') n (opened p lo hi) = ends c.send_failed refl
      where
        ends :
            (b : Bool)
            → c.send_failed ≡ b
            → IsClosed c.send_failed (close_tcp_streams b (connected p ∷ h))
        ends true e = left_open p lo hi n e
        ends false e = closed_after p lo hi n e
    run_body-IsClosed cleanup h (r, h') n (refused r' other) = errors r other
      where
        errors :
            (r : Outcome ℕ)
            → ((port : ℕ) → r ≢ ok port)
            → IsClosed c.send_failed (run_body net is_space casefold hosts c cleanup (r, h)).1
        errors (ok port) o = absurd (o port refl)
        errors value_error o = unopened n
        errors discovery_error o = unopened n
        errors os_error o = unopened n
        errors other_error o = unopened n
        errors cancelled o = unopened n

    connect_to-IsClosed :
        (cleanup : ℕ) (r : Outcome ℤ × History)
        → NoConnection r.1
        → IsClosed c.send_failed (connect_to net is_space casefold hosts c cleanup r).1
    unfolding connect_to
    connect_to-IsClosed cleanup (ok port, h) n =
        run_body-IsClosed cleanup h _ n
          (open_loopback_connection-Opened c.ticks c.dial port c.connect_timeout h)
    connect_to-IsClosed cleanup (value_error, h) n = unopened n
    connect_to-IsClosed cleanup (discovery_error, h) n = unopened n
    connect_to-IsClosed cleanup (os_error, h) n = unopened n
    connect_to-IsClosed cleanup (other_error, h) n = unopened n
    connect_to-IsClosed cleanup (cancelled, h) n = unopened n

    as_port-history : (r : Outcome ℕ × History) → (as_port net is_space casefold hosts c r).1 ≡ r.1
    unfolding as_port
    as_port-history (ok port, h) = refl
    as_port-history (value_error, h) = refl
    as_port-history (discovery_error, h) = refl
    as_port-history (os_error, h) = refl
    as_port-history (other_error, h) = refl
    as_port-history (cancelled, h) = refl

    discover_port-touches :
        (cleanup : ℕ) (o : Option (Outcome ℤ))
        → NoConnection (discover_port net is_space casefold hosts c cleanup o).1
    unfolding discover_port
    discover_port-touches cleanup (some r) = unfold count in refl
    discover_port-touches cleanup none =
        rw
          (as_port-history (
            discover_local_service_port net is_space casefold hosts c.ticks c.discovery_timeout
              (finite (pos cleanup))))
          (discover_local_service_port-touches c.ticks c.discovery_timeout (finite (pos cleanup)))

    with_cleanup-IsClosed :
        (o : Option ℕ) → IsClosed c.send_failed (with_cleanup net is_space casefold hosts c o).1
    unfolding with_cleanup
    with_cleanup-IsClosed none = unopened nothing
    with_cleanup-IsClosed (some cleanup) =
        connect_to-IsClosed cleanup
          (discover_port net is_space casefold hosts c cleanup c.discovery)
          (discover_port-touches cleanup c.discovery)

    -- However a transport context ends, it opened no connection, or exactly one, to a port from 1 to
    -- 65535, and closed its streams as the last thing that it did; only after a write that failed are
    -- they left open.
    pub loopback_transport-IsClosed :
        IsClosed c.send_failed (loopback_transport net is_space casefold hosts c).1
    unfolding loopback_transport
    loopback_transport-IsClosed =
        elim (Bool-cases (valid_read_timeout net is_space casefold hosts c c.read_timeout)) [
          | inl valid ↦
              rw (valid, loopback_transport)
                (with_cleanup-IsClosed (validate_timeout c.ticks c.close_timeout))
          | inr invalid ↦ rw (invalid, loopback_transport) (unopened nothing)
        ]
