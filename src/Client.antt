-- ===== src/Client.antt =====
-- The plugin's HTTP client (_bridge.py): `load_config`, `_redact`, `_parse_response`,
-- `request_bridge`, `_http_deadline`, `write_json` and the payloads.
pub mod Redaction
pub mod Dispatch
pub mod Tools
pub mod Timer
use stavrobot_imcp_plugin.Prelude.{
  ℕ, zero, suc, ◌+◌, ◌-◌, ◌*◌, ◌/◌, ◌<◌, Text, codes, text_eq, mem_text, Bool, true, false, ◌&&◌,
  ◌||◌, not, Option, none, some, is_some, List, [], ◌∷◌, ◌++◌, length, leb, ltb, ◌==◌,
  if◌then◌else◌,
}
use stavrobot_imcp_plugin.Json.{
  Value, bool, str, arr, obj, Items, nil, cons, Fields, end, field, get, put,
}
use stavrobot_imcp_plugin.Json.Dump.{Bytes, dumps, utf8, ◌>>=◌}

abbrev pub max_client_response_bytes : ℕ
max_client_response_bytes = 256 * 1024

unfoldable pub client_error : Text → Text → Bool → Fields
client_error code message truncated = field (codes "ok") (bool false) (
    field (codes "error")
      (obj (field (codes "code") (str code) (field (codes "message") (str message) end)))
      (field (codes "truncated") (bool truncated) end))

unfoldable pub client_unknown_outcome : Fields
client_unknown_outcome = field (codes "ok") (bool false) (
    field (codes "error")
      (obj (
        field (codes "code") (str (codes "unknown_outcome")) (
          field (codes "message") (str (codes "call may have executed; do not retry"))
            (field (codes "retryable") (bool false) end))))
      (field (codes "truncated") (bool false) end))

-- What `urlsplit` gives.
pub record Url : Type 0 where
  pub scheme : Text
  pub netloc : Text
  pub username : Option Text
  pub password : Option Text
  pub hostname : Option Text

-- How `response.read` ends; `interrupted`: the timer fires outside the handlers that absorb it.
pub data Read : Type 0 where
  read_bytes : Bytes → Read
  not_bytes read_failed interrupted : Read

-- How `HTTP_OPENER.open` ends.
pub data Opened : Type 0 where
  responded : Read → Opened
  http_error : ℕ → Read → Opened
  open_expired open_failed : Opened

-- A request as the opener gets it.
pub record Sent : Type 0 where
  pub url : Text
  pub body : Bytes
  pub token : Text

-- The outside: the configuration file as `json.loads` reads it, if it can be read and decoded;
-- `str.isspace`; `urlsplit`, or its ValueError; whether `Request(...)` can be built; whether the
-- platform has the timer; the opener; and `json.loads` on the bytes of a body, constants rejected.
pub record Io : Type 0 where
  pub config : Option Value
  pub is_space : ℕ → Bool
  pub urlsplit : Text → Option Url
  pub can_request : Sent → Bool
  pub has_timer : Bool
  pub opener : Sent → Opened
  pub json_loads : Bytes → Option Value

any_of : (ℕ → Bool) → Text → Bool
any_of p [] = false
any_of p (c ∷ s) = p c || any_of p s

is_empty : Text → Bool
is_empty [] = true
is_empty (c ∷ s) = false

valid_url : Option Url → Bool
unfolding is_empty
valid_url none = false
valid_url (some url) =
    mem_text url.scheme (codes "http" ∷ codes "https" ∷ [])
    && (not (is_empty url.netloc)
        && (not (is_some url.username) && (not (is_some url.password) && is_some url.hostname)))

valid_config : Io → Option Value → Option Value → Option (Text × Text)
unfolding any_of is_empty valid_url
valid_config io (some (str url)) (some (str token)) =
    if is_empty url || (is_empty token || any_of io.is_space token)
    then none
    else if valid_url (io.urlsplit url)
    then some (url, token)
    else none
valid_config io _ _ = none

-- The URL and the token.
unfoldable pub load_config : Io → Option (Text × Text)
unfolding valid_config
load_config io = elim io.config [
  | none ↦ none
  | some v ↦ elim v [
    | obj fs ↦ valid_config io (get (codes "bridge_url") fs) (get (codes "bridge_token") fs)
    | _ ↦ none
  ]
]

unfoldable pub starts_with : Text → Text → Bool
starts_with [] s = true
starts_with (c ∷ p) [] = false
starts_with (c ∷ p) (d ∷ s) = c == d && starts_with p s

-- `secret in s`.
unfoldable pub contains : Text → Text → Bool
unfolding starts_with
contains secret [] = starts_with secret []
contains secret (c ∷ s) = starts_with secret (c ∷ s) || contains secret s

-- `s.replace(secret, replacement)` with a non-empty secret, after `skip` more characters of an
-- occurrence.
unfoldable pub replace : Text → Text → ℕ → Text → Text
unfolding starts_with
replace secret replacement skip [] = []
replace secret replacement (suc skip) (c ∷ s) = replace secret replacement skip s
replace secret replacement zero (c ∷ s) = elim (starts_with secret (c ∷ s)) [
  | true ↦ replacement ++ replace secret replacement (length secret - 1) s
  | false ↦ c ∷ replace secret replacement zero s
]

abbrev pub redacted : Text
redacted = codes "[REDACTED]"

unfoldable pub replacement_for : Text → Text
unfolding contains
replacement_for secret = if contains secret redacted then [] else redacted

unfoldable pub redact_text : Text → Text → Text
unfolding replace replacement_for
redact_text [] s = s
redact_text (c ∷ secret) s = replace (c ∷ secret) (replacement_for (c ∷ secret)) 0 s

unfoldable mutual
  unfolding redact_text put

  pub redact : Text → Value → Value
  redact secret (str s) = str (redact_text secret s)
  redact secret (arr xs) = arr (redact_items secret xs)
  redact secret (obj fs) = obj (redact_fields secret fs end)
  redact secret v = v

  pub redact_items : Text → Items → Items
  redact_items secret nil = nil
  redact_items secret (cons x xs) = cons (redact secret x) (redact_items secret xs)

  -- The entries so far; a later entry takes the place of one whose redacted key is the same.
  pub redact_fields : Text → Fields → Fields → Fields
  redact_fields secret end acc = acc
  redact_fields secret (field k v fs) acc =
      redact_fields secret fs (put (redact_text secret k) (redact secret v) acc)

-- How an exchange ends: an envelope, or one of the exceptions that `request_bridge` tells apart.
pub data Exchanged : Type 0 where
  envelope : Fields → Exchanged
  deadline_expired response_too_large invalid_response other_error : Exchanged

parse_payload : Text → Option Value → Exchanged
unfolding redact
parse_payload token (some (obj fs)) = envelope (redact_fields token fs end)
parse_payload token _ = invalid_response

-- `_parse_response`; at most one byte over the limit is read.
unfoldable pub parse_response : Io → Read → Text → Exchanged
unfolding parse_payload
parse_response io (read_bytes body) token =
    if ltb max_client_response_bytes (length body)
    then response_too_large
    else parse_payload token (io.json_loads body)
parse_response io not_bytes token = invalid_response
parse_response io read_failed token = invalid_response
parse_response io interrupted token = deadline_expired

-- `operation.get("operation") == "call_tool"`.
unfoldable pub is_call : Fields → Bool
is_call operation = elim (get (codes "operation") operation) [
  | some (str name) ↦ text_eq name (codes "call_tool")
  | _ ↦ false
]

bridge_unavailable : Fields
bridge_unavailable = client_error (codes "bridge_unavailable") (codes "bridge request failed") false

-- The answer to an exception after the dispatch.
failed_exchange : Bool → Fields → Fields
failed_exchange call_tool payload = if call_tool then client_unknown_outcome else payload

answer_exchange : Bool → Exchanged → Fields
unfolding bridge_unavailable failed_exchange
answer_exchange call_tool (envelope fs) = fs
answer_exchange call_tool deadline_expired = failed_exchange call_tool bridge_unavailable
answer_exchange call_tool response_too_large = failed_exchange call_tool (
    client_error (codes "response_too_large") (codes "bridge response exceeded the client limit")
      true)
answer_exchange call_tool invalid_response =
    failed_exchange call_tool
      (client_error (codes "invalid_response") (codes "bridge returned invalid JSON") false)
answer_exchange call_tool other_error = failed_exchange call_tool bridge_unavailable

-- The result of the opener; a redirect is an error, any other HTTP error may carry an envelope.
answer_opened : Io → Text → Bool → Opened → Fields
unfolding answer_exchange bridge_unavailable failed_exchange parse_response
answer_opened io token call_tool (responded read) =
    answer_exchange call_tool (parse_response io read token)
answer_opened io token call_tool (http_error code read) =
    if leb 300 code && ltb code 400
    then failed_exchange call_tool bridge_unavailable
    else answer_exchange call_tool (parse_response io read token)
answer_opened io token call_tool open_expired = answer_exchange call_tool deadline_expired
answer_opened io token call_tool open_failed = answer_exchange call_tool other_error

-- What the caller gets, and what was handed to the opener.
exchange : Io → Bool → Sent → Fields × List Sent
unfolding answer_opened bridge_unavailable
exchange io call_tool request =
    if io.has_timer
    then (answer_opened io request.token call_tool (io.opener request), request ∷ [])
    else (bridge_unavailable, [])

configuration_error : Fields
configuration_error =
    client_error (codes "configuration_error") (codes "bridge configuration is unavailable") false

-- `json.dumps(...).encode("utf-8")`, without the fallback of the server.
unfoldable pub request_body : Fields → Option Bytes
unfolding dumps utf8
request_body operation = do t ← dumps false (obj operation); utf8 t

build_request : Io → Bool → Text → Text → Option Bytes → Fields × List Sent
unfolding exchange configuration_error
build_request io call_tool url token none = (
  client_error (codes "serialization_error") (codes "bridge request could not be serialized") false,
  [],
)
build_request io call_tool url token (some body) =
    if io.can_request (record { url = url; body = body; token = token })
    then exchange io call_tool (record { url = url; body = body; token = token })
    else (configuration_error, [])

unfoldable pub request_bridge : Io → Fields → Fields × List Sent
unfolding build_request configuration_error load_config request_body is_call
request_bridge io operation = elim (load_config io) [
  | none ↦ (configuration_error, [])
  | some (url, token) ↦ build_request io (is_call operation) url token (request_body operation)
]

-- `_http_deadline` at its end: the delay that the caller's timer gets back, from the delay and the
-- interval that it had and the time since. Times are in microseconds.
unfoldable pub restored_delay : ℕ → ℕ → ℕ → Option ℕ
restored_delay elapsed delay zero =
    if delay == 0 then none else if ltb elapsed delay then some (delay - elapsed) else some 1
restored_delay elapsed delay (suc i) =
    if ltb elapsed delay
    then some (delay - elapsed)
    else some (delay + ((elapsed - delay) / suc i + 1) * suc i - elapsed)

-- `write_json`: one line; `none` stands for the error of `json.dumps`.
unfoldable pub write_json : Fields → Option Text
unfolding dumps
write_json payload = do t ← dumps true (obj payload); some (t ++ 10 ∷ [])
