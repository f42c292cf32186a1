-- ===== src/Http.antt =====
-- `BridgeRequestHandler` (bridge/server.py): the authorization and the body of a request, the
-- writing of an answer, and `_handle` with its `except` clauses.
-- The handler's local variables and what it does to the outside make up a frame; a method is a
-- function from a frame to an end and the next frame.
pub mod Served
pub mod Bodies
pub mod Replies
pub mod Authorization
use stavrobot_imcp_plugin.Prelude.{
  ℕ, ◌+◌, ◌*◌, Text, codes, text_eq, Bool, true, false, ◌&&◌, not, Option, none, some, List, [],
  ◌∷◌, map, length, leb, ltb, ◌==◌, if◌then◌else◌,
}
use stavrobot_imcp_plugin.Json.{ℤ, pos, negsuc, Value, str, obj, Fields, end, field, get}
use stavrobot_imcp_plugin.Json.Dump.{Bytes, utf8}
use stavrobot_imcp_plugin.Response.Payload.{error_payload, unknown_outcome_payload}
use stavrobot_imcp_plugin.Response.Encode.{
  Encoded, sent, runtime_error, encode_json, max_response_bytes,
}
use stavrobot_imcp_plugin.Bridge.Responses.{OperationResponse, bad_request, bad_gateway}

abbrev pub max_request_body_bytes : ℕ
max_request_body_bytes = 64 * 1024

-- `_HTTPFailure`; a TimeoutError (of a future or of the socket) or a CancelledError; a
-- BrokenPipeError or a ConnectionResetError; any other `Exception`.
pub data HttpExc : Type 0 where
  http_failure : ℕ → Text → Text → HttpExc
  timed_out disconnected unexpected : HttpExc

pub data Ended (A : Type 0) : Type 0 where
  done : A → Ended A
  threw : HttpExc → Ended A

-- An answer that is put on the wire.
pub record Reply : Type 0 where
  pub status_code : ℕ
  pub body : Bytes

-- The locals `request`, `tool_name` and `status` of `_handle`, and, latest first, the requests given to
-- the runtime and the answers written.
pub record Frame : Type 0 where
  pub request : Option Fields
  pub tool_name : Text
  pub status : Text
  pub runs : List Fields
  pub replies : List Reply

-- The request as the standard library hands it over, and the server: headers that are absent are
-- `none`; `url_path` is `urlsplit(self.path).path`, or the ValueError; `parse_int` is `int` and
-- `json_loads` is `_json_loads`; `read` is `self.rfile.read`; `run` is the runtime's answer to a
-- request; `write` is how the writing of the next answer ends, after those before it.
pub record Exchange : Type 0 where
  pub authorization : Option Text
  pub transfer_encoding : Option Text
  pub content_length : Option Text
  pub url_path : Option Text
  pub bridge_path : Text
  pub bridge_token : Text
  pub parse_int : Text → Option ℤ
  pub read : ℕ → Ended Bytes
  pub json_loads : Bytes → Option Value
  pub run : Fields → Ended OperationResponse
  pub write : List Reply → Ended (Unit {0})

abbrev pub H : Type 0 → Type 0
H A = Frame → Ended A × Frame

unfoldable pub next : {A B : Type 0} → Ended A → (A → H B) → H B
next (done a) k f = k a f
next (threw e) k f = (threw e, f)

infixl 5 ◌>>=◌ ◌>>◌
unfoldable pub ◌>>=◌ : {A B : Type 0} → H A → (A → H B) → H B
unfolding next
◌>>=◌ m k f = let (r, g) = m f in next r k g

abbrev pub ◌>>◌ : {B : Type 0} → H (Unit {0}) → H B → H B
m >> k = m >>= λ _. k

abbrev pub give : {A : Type 0} → Ended A → H A
give r f = (r, f)

unfoldable pub rescue : {A : Type 0} → Ended A → (HttpExc → H A) → H A
rescue (done a) k f = (done a, f)
rescue (threw e) k f = k e f

-- `str.casefold` where it matters to a comparison with `bearer`: no other character folds to its letters.
fold_letter : ℕ → ℕ
fold_letter c = if leb b'A' c && leb c b'Z' then c + 32 else c

-- `partition(" ")`: what stands before the first space and after it, if there is one.
unfoldable pub partition : Text → Option (Text × Text)
partition [] = none
partition (c ∷ s) =
    if c == b' '
    then some ([], s)
    else (elim (partition s) [ none ↦ none | some (scheme, value) ↦ some (c ∷ scheme, value) ])

-- `hmac.compare_digest` on the UTF-8 bytes; a string without them raises.
same_secret : Option Bytes → Option Bytes → Ended Bool
same_secret (some a) (some b) = done (text_eq a b)
same_secret _ _ = threw unexpected

is_bearer : Text → Text → Bool
unfolding fold_letter
is_bearer scheme [] = false
is_bearer scheme (c ∷ s) = text_eq (map fold_letter scheme) (codes "bearer")

unfoldable pub authorized : Option Text → Text → Ended Bool
unfolding partition is_bearer same_secret utf8
authorized none token = done false
authorized (some supplied) token = elim (partition supplied) [
  | none ↦ done false
  | some (scheme, value) ↦
      if is_bearer scheme value then same_secret (utf8 value) (utf8 token) else done false
]

abbrev pub refuse : {A : Type 0} → ℕ → Text → Text → Ended A
refuse status code message = threw (http_failure status code message)

is_set : Option Text → Bool
is_set none = false
is_set (some []) = false
is_set (some (c ∷ s)) = true

parse_body : Option Value → Ended Fields
parse_body none =
    refuse bad_request (codes "invalid_request") (codes "request body is not valid JSON")
parse_body (some (obj fs)) = done fs
parse_body (some _) =
    refuse bad_request (codes "invalid_request") (codes "request body must be a JSON object")

check_body : Exchange → ℕ → Ended Bytes → Ended Fields
unfolding parse_body
check_body ex n (threw e) = threw e
check_body ex n (done raw) =
    if not (length raw == n)
    then refuse bad_request (codes "invalid_request") (codes "request body was incomplete")
    else if length raw == 0
    then refuse bad_request (codes "invalid_request") (codes "request body is required")
    else parse_body (ex.json_loads raw)

read_body : Exchange → Option ℤ → Ended Fields
unfolding check_body
read_body ex (some (pos n)) =
    if ltb max_request_body_bytes n
    then refuse 413 (codes "request_too_large") (codes "request body is too large")
    else check_body ex n (ex.read n)
read_body ex _ = refuse bad_request (codes "invalid_request") (codes "invalid content length")

length_required : Text → Ended Fields
length_required message = refuse 411 (codes "invalid_request") message

with_length : Exchange → Option Text → Ended Fields
unfolding read_body length_required
with_length ex none = length_required (codes "content length is required")
with_length ex (some value) = read_body ex (ex.parse_int value)

unfoldable pub read_request : Exchange → Ended Fields
unfolding with_length length_required is_set
read_request ex =
    if is_set ex.transfer_encoding
    then length_required (codes "chunked request bodies are not supported")
    else with_length ex ex.content_length

-- The answer goes on the wire; the connection may fail under it.
put_reply : Exchange → Reply → H (Unit {0})
put_reply ex reply f = (ex.write f.replies, record f { replies = reply ∷ f.replies })

write_encoded : Exchange → ℕ → Encoded → Encoded → H (Unit {0})
unfolding put_reply
write_encoded ex status_code (sent body _) _ =
    put_reply ex (record { status_code = status_code; body = body })
write_encoded ex status_code runtime_error (sent body _) =
    put_reply ex (record { status_code = 500; body = body })
write_encoded ex status_code runtime_error runtime_error = give (threw unexpected)

-- `_write_payload`.
unfoldable pub write_payload : Exchange → Fields → ℕ → H (Unit {0})
unfolding write_encoded put_reply
write_payload ex payload status_code =
    write_encoded ex status_code (encode_json payload max_response_bytes) (
      encode_json
        (error_payload (codes "internal_error") (codes "bridge could not encode the response") end)
        max_response_bytes)

unfoldable pub is_call_tool : Option Fields → Bool
is_call_tool none = false
is_call_tool (some request) = elim (get (codes "operation") request) [
  | some (str operation) ↦ text_eq operation (codes "call_tool")
  | _ ↦ false
]

-- `status = ...`.
set_status : Text → H (Unit {0})
set_status status f = (done tt, record f { status = status })

name_of : Fields → Text → Text
name_of request tool_name = elim (get (codes "name") request) [
  | some (str name) ↦ name
  | _ ↦ tool_name
]

-- `request = ...`, and the tool's name for the log.
take_request : Fields → H (Unit {0})
take_request request f = (
  done tt,
  record f {
    request = some request;
    tool_name = if is_call_tool (some request) then name_of request f.tool_name else f.tool_name;
  },
)

-- `runtime.run(service.execute(request, ...), ...)`.
run_request : Exchange → Fields → H OperationResponse
run_request ex request f = (ex.run request, record f { runs = request ∷ f.runs })

finish : Exchange → OperationResponse → H (Unit {0})
finish ex result f =
    write_payload ex result.payload result.status_code
      (record f { tool_name = result.tool_name; status = result.log_status })

check_authorized : Bool → Ended (Unit {0})
check_authorized true = done tt
check_authorized false = refuse 401 (codes "unauthorized") (codes "authentication required")

check_path : Exchange → Option Text → Ended (Unit {0})
check_path ex none = threw unexpected
check_path ex (some path) =
    if text_eq path ex.bridge_path
    then done tt
    else refuse 404 (codes "not_found") (codes "bridge path not found")

request_or_read : Exchange → Option Fields → Ended Fields
request_or_read ex none = read_request ex
request_or_read ex (some request) = done request

-- The body of the `try`.
attempt : Exchange → Option Fields → H (Unit {0})
unfolding ◌>>=◌
attempt ex given = do
  allowed ← give (authorized ex.authorization ex.bridge_token)
  give (check_authorized allowed)
  give (check_path ex ex.url_path)
  request ← give (request_or_read ex given)
  take_request request
  result ← run_request ex request
  finish ex result

-- The outcome of a tool call that was given to the runtime is not known.
unknown : Exchange → H (Unit {0})
unfolding ◌>>=◌
unknown ex = do
  set_status (codes "unknown_outcome")
  write_payload ex unknown_outcome_payload bad_gateway

pub unknown_or : Exchange → Fields → ℕ → H (Unit {0})
unknown_or ex payload status_code f =
    if is_call_tool f.request then unknown ex f else write_payload ex payload status_code f

-- The `except` clauses.
pub on_exception : Exchange → HttpExc → H (Unit {0})
on_exception ex (http_failure status code message) =
    write_payload ex (error_payload code message end) status
on_exception ex timed_out =
    unknown_or ex (error_payload (codes "timeout") (codes "bridge operation timed out") end) 504
on_exception ex disconnected = set_status (codes "client_disconnected")
on_exception ex unexpected =
    unknown_or ex (error_payload (codes "internal_error") (codes "bridge request failed") end) 500

abbrev pub started : Option Fields → Frame
started request = record {
  request = request;
  tool_name = codes "bridge";
  status = codes "error";
  runs = [];
  replies = [];
}

pub handle : Exchange → Option Fields → Ended (Unit {0}) × Frame
unfolding rescue
handle ex given = let (r, f) = attempt ex given (started given) in rescue r (on_exception ex) f

pub do_post : Exchange → Ended (Unit {0}) × Frame
do_post ex = handle ex none

pub do_get : Exchange → Ended (Unit {0}) × Frame
do_get ex = handle ex (some (field (codes "operation") (str (codes "health")) end))

pub do_put : Exchange → Ended (Unit {0}) × Frame
do_put ex =
    write_payload ex (error_payload (codes "method_not_allowed") (codes "method not allowed") end)
      405 (started none)
