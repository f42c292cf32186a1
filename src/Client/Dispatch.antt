-- ===== src/Client/Dispatch.antt =====
-- What `request_bridge` puts on the network, and how it answers for it (_bridge.py).
use stavrobot_imcp_plugin.Prelude.{
  ℕ, ◌≤◌, Text, codes, true, false, Option, none, some, List, [], ◌∷◌, length, leb, ltb, ◌&&◌, ◌≡◌,
  ◌⊎◌, inl, inr, refl, arith, Bool-cases, Option-cases,
}
use stavrobot_imcp_plugin.Json.{
  Value, null, bool, int, float, not_finite, str, arr, model, other, obj, Fields, end,
}
use stavrobot_imcp_plugin.Json.Dump.{Bytes}
use stavrobot_imcp_plugin.Client.{
  Io, Sent, Read, read_bytes, not_bytes, read_failed, interrupted, Opened, responded, http_error,
  open_expired, open_failed, envelope, invalid_response, max_client_response_bytes, client_error,
  client_unknown_outcome, configuration_error, bridge_unavailable, failed_exchange, answer_exchange,
  answer_opened, exchange, build_request, parse_payload, parse_response, load_config, request_body,
  request_bridge, is_call, redact_fields,
}

-- The bytes that the bridge answered with, redirects left out.
pub Answered : Opened → Bytes → Type 0
Answered opened raw =
    (opened ≡ responded (read_bytes raw))
    ⊎ ((code : ℕ) × ((leb 300 code && ltb code 400) ≡ false)
        × (opened ≡ http_error code (read_bytes raw)))

pub IsParsed : Io → Text → Bytes → Fields → Type 0
IsParsed io token raw payload =
    (fs : Fields) × (length raw ≤ max_client_response_bytes)
    × (io.json_loads raw ≡ some (obj fs))
    × (payload ≡ redact_fields token fs end)

-- The redacted envelope of a complete JSON object within the limit.
pub IsEnvelope : Io → Sent → Fields → Type 0
IsEnvelope io request payload =
    (raw : Bytes) × Answered (io.opener request) raw × IsParsed io request.token raw payload

parse_payload-cases :
    (token : Text) (v : Option Value)
    → (parse_payload token v ≡ invalid_response)
      ⊎ ((fs : Fields) × (v ≡ some (obj fs))
          × (parse_payload token v ≡ envelope (redact_fields token fs end)))
unfolding parse_payload
parse_payload-cases token none = inl refl
parse_payload-cases token (some (obj fs)) = inr (fs, refl, refl)
parse_payload-cases token (some null) = inl refl
parse_payload-cases token (some (bool b)) = inl refl
parse_payload-cases token (some (int i)) = inl refl
parse_payload-cases token (some (float t)) = inl refl
parse_payload-cases token (some not_finite) = inl refl
parse_payload-cases token (some (str t)) = inl refl
parse_payload-cases token (some (arr xs)) = inl refl
parse_payload-cases token (some (model m)) = inl refl
parse_payload-cases token (some other) = inl refl

not_over : (n k : ℕ) → ltb k n ≡ false → n ≤ k
not_over n k h = ground arith

-- A call is answered with the envelope of its bytes, or with the unknown outcome.
parse_response-IsParsed :
    (io : Io) (token : Text) (read : Read)
    → (answer_exchange true (parse_response io read token) ≡ client_unknown_outcome)
      ⊎ ((raw : Bytes) × (read ≡ read_bytes raw)
          × IsParsed io token raw (answer_exchange true (parse_response io read token)))
unfolding parse_response answer_exchange failed_exchange IsParsed
parse_response-IsParsed io token not_bytes = inl refl
parse_response-IsParsed io token read_failed = inl refl
parse_response-IsParsed io token interrupted = inl refl
parse_response-IsParsed io token (read_bytes raw) =
    elim (Bool-cases (ltb max_client_response_bytes (length raw))) [
      | inl e ↦ inl (rw e refl)
      | inr e ↦ elim (parse_payload-cases token (io.json_loads raw)) [
        | inl k ↦ inl (rw (e, k) refl)
        | inr (fs, j, k) ↦ inr (raw, refl, (fs, not_over _ _ e, j, rw (e, k) refl))
      ]
    ]

opened_call :
    (io : Io) (token : Text) (opened : Opened)
    → (answer_opened io token true opened ≡ client_unknown_outcome)
      ⊎ ((raw : Bytes) × Answered opened raw
          × IsParsed io token raw (answer_opened io token true opened))
unfolding answer_opened Answered answer_exchange failed_exchange
opened_call io token open_expired = inl refl
opened_call io token open_failed = inl refl
opened_call io token (responded read) = elim (parse_response-IsParsed io token read) [
  | inl e ↦ inl e
  | inr (raw, e, h) ↦ inr (raw, inl (rw e refl), h)
]
opened_call io token (http_error code read) = elim (Bool-cases (leb 300 code && ltb code 400)) [
  | inl e ↦ inl (rw e refl)
  | inr k ↦ elim (parse_response-IsParsed io token read) [
    | inl e ↦ inl (rw k e)
    | inr (raw, e, h) ↦ inr (raw, inr (code, k, rw e refl), rw k h)
  ]
]

-- The request was not handed to the opener, and the answer says why.
pub IsLocal : Fields × List Sent → Type 0
IsLocal r =
    (r.1 ≡ [])
    × ((r.0
          ≡ client_error (codes "configuration_error") (codes "bridge configuration is unavailable")
              false)
        ⊎ ((r.0
              ≡ client_error (codes "serialization_error")
                  (codes "bridge request could not be serialized") false)
            ⊎ (r.0
                ≡ client_error (codes "bridge_unavailable") (codes "bridge request failed") false)))

-- Exactly one request was handed to the opener: the serialized operation, with the configured
-- token, to the configured URL.
pub IsDispatched : Io → Fields → Fields × List Sent → Type 0
IsDispatched io operation r =
    (url : Text) × (token : Text) × (body : Bytes) × (load_config io ≡ some (url, token))
    × (request_body operation ≡ some body)
    × (r.1 ≡ record { url = url; body = body; token = token } ∷ [])
    × ((r.0 ≡ client_unknown_outcome)
        ⊎ IsEnvelope io (record { url = url; body = body; token = token }) r.0)

exchange_call :
    (io : Io) (request : Sent)
    → IsLocal (exchange io true request)
      ⊎ ((exchange io true request
            ≡ (answer_opened io request.token true (io.opener request), request ∷ []))
          × Unit {0})
unfolding exchange IsLocal bridge_unavailable
exchange_call io request = elim (Bool-cases io.has_timer) [
  | inl e ↦ inr (rw e refl, tt)
  | inr e ↦ inl (rw e (refl, inr (inr refl)))
]

built_call :
    (io : Io) (operation : Fields) (url token : Text) (body : Bytes)
    → load_config io ≡ some (url, token)
    → request_body operation ≡ some body
    → IsLocal (build_request io true url token (some body))
      ⊎ IsDispatched io operation (build_request io true url token (some body))
unfolding build_request configuration_error IsLocal IsDispatched IsEnvelope
built_call io operation url token body e k =
    let request : Sent = record { url = url; body = body; token = token } in
    elim (Bool-cases (io.can_request request)) [
      | inr n ↦ inl (rw n (refl, inl refl))
      | inl y ↦ elim (exchange_call io request) [
        | inl h ↦ inl (rw y h)
        | inr (h, _) ↦
            inr (rw (y, h) (url, token, body, e, k, refl, opened_call io token (io.opener request)))
      ]
    ]

configured_call :
    (io : Io) (operation : Fields) (url token : Text)
    → load_config io ≡ some (url, token)
    → IsLocal (build_request io true url token (request_body operation))
      ⊎ IsDispatched io operation (build_request io true url token (request_body operation))
unfolding build_request IsLocal
configured_call io operation url token e = elim (Option-cases (request_body operation)) [
  | inl k ↦ inl (rw k (refl, inr (inl refl)))
  | inr (body, k) ↦ rw k (built_call io operation url token body e k)
]

-- A `call_tool` operation is handed to the opener at most once, and never retried. If it is not
-- handed to it, the answer is one of three local errors. If it is, the answer is the redacted
-- envelope of what the bridge answered, or the unknown outcome.
pub request_bridge_lem :
    (io : Io) (operation : Fields)
    → is_call operation ≡ true
    → IsLocal (request_bridge io operation)
      ⊎ IsDispatched io operation (request_bridge io operation)
unfolding request_bridge IsLocal configuration_error
request_bridge_lem io operation call = elim (Option-cases (load_config io)) [
  | inl e ↦ inl (rw (request_bridge, e) (refl, inl refl))
  | inr (c, e) ↦ rw (request_bridge, e, call) (configured_call io operation c.0 c.1 e)
]
