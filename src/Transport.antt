-- ===== src/Transport.antt =====
-- The framed streams of the loopback transport (stavrobot_imcp/transport.py): `_TCPReadStream` and
-- `_TCPWriteStream`. The peer's bytes are those that are still to come; a fault is what ends a
-- read or a drain instead of data.
pub mod Frames
use stavrobot_imcp_plugin.Prelude.{
  ℕ, ◌*◌, Bool, true, false, ◌||◌, Option, none, some, List, [], ◌∷◌, ◌++◌, length, ltb, ◌==◌,
  if◌then◌else◌,
}
use stavrobot_imcp_plugin.Json.Dump.{Bytes}

abbrev pub max_message_bytes : ℕ
max_message_bytes = 10 * 1024 * 1024

-- A read that times out, and a connection that breaks.
pub data Fault : Type 0 where
  timed_out broken : Fault

-- How `StreamReader.readline` ends; `overrun` is its LimitOverrunError or ValueError.
pub data Line : Type 0 where
  line : Bytes → Line
  overrun : Line
  failed : Fault → Line

-- What stands before the first newline, and what follows it, if there is one.
unfoldable pub split_line : Bytes → Bytes × Option Bytes
split_line [] = ([], none)
split_line (c ∷ s) =
    let (content, rest) = split_line s in if c == 10 then ([], some s) else (c ∷ content, rest)

line_of : Bytes × Option Bytes → Line × Bytes
line_of (content, none) = (line content, [])
line_of (content, some rest) = (line (content ++ 10 ∷ []), rest)

-- `readline` under the reader's limit, and the bytes that are left.
unfoldable pub read_line : ℕ → Option Fault → Bytes → Line × Bytes
unfolding split_line line_of
read_line limit (some fault) pending = (failed fault, pending)
read_line limit none pending =
    if ltb limit (length (split_line pending).0)
    then (overrun, pending)
    else line_of (split_line pending)

pub record ReadStream : Type 0 where
  pub pending : Bytes
  pub read_closed : Bool

pub record WriteStream : Type 0 where
  pub written : Bytes
  pub write_closed : Bool
  -- `writer.is_closing()`.
  pub closing : Bool

-- `receive`: what `_parse_jsonrpc_line` makes of a line, or EndOfStream, ClosedResourceError,
-- FrameTooLargeError or TimeoutError.
pub data Received (A : Type 0) : Type 0 where
  message : A → Received A
  end_of_stream closed_resource frame_too_large receive_timeout : Received A

-- `send`: sent, ClosedResourceError, or BrokenResourceError.
pub data SendResult : Type 0 where
  delivered refused broken_resource : SendResult

closed_with : {A : Type 0} → Received A → Bytes → Received A × ReadStream
closed_with r pending = (r, record { pending = pending; read_closed = true })

module _ {A : Type 0} (parse : Bytes → A) where
  received : Line × Bytes → Received A × ReadStream
  unfolding closed_with
  received (line [], pending) = closed_with end_of_stream pending
  received (line (c ∷ s), pending) =
      (message (parse (c ∷ s)), record { pending = pending; read_closed = false })
  received (overrun, pending) = closed_with frame_too_large pending
  received (failed timed_out, pending) = closed_with receive_timeout pending
  received (failed broken, pending) = closed_with end_of_stream pending

  unfoldable pub receive : ℕ → Option Fault → ReadStream → Received A × ReadStream
  unfolding received read_line
  receive limit fault s =
      if s.read_closed then (closed_resource, s) else received (read_line limit fault s.pending)

unfoldable pub aclose_read : ReadStream → ReadStream
aclose_read s = record s { read_closed = true }

module _ {A : Type 0} (dump : A → Bytes) where
  -- `send`; the drain fails or not.
  unfoldable pub send : Bool → A → WriteStream → SendResult × WriteStream
  send fails item s =
      if s.write_closed || s.closing
      then (refused, s)
      else (if fails
          then (
            broken_resource,
            record s { written = s.written ++ (dump item ++ 10 ∷ []); write_closed = true },
          )
          else (delivered, record s { written = s.written ++ (dump item ++ 10 ∷ []) }))

  unfoldable pub send_all : List A → WriteStream → WriteStream
  unfolding send
  send_all [] s = s
  send_all (item ∷ items) s = send_all items (send false item s).1

unfoldable pub aclose_write : WriteStream → WriteStream
aclose_write s = if s.write_closed then s else record s { write_closed = true; closing = true }
