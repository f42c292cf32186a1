-- ===== src/Http/Replies.antt =====
-- What `_write_payload` and the `except` clauses of `_handle` put on the wire (bridge/server.py).
use stavrobot_imcp_plugin.Prelude.{
  ℕ, ◌≤◌, codes, Bool, true, ◌∷◌, length, ◌≡◌, refl, arith, ◌⊎◌, inl, inr, Bool-cases,
}
use stavrobot_imcp_plugin.Json.{Fields, end}
use stavrobot_imcp_plugin.Json.Dump.{Bytes}
use stavrobot_imcp_plugin.Response.Payload.{error_payload, unknown_outcome_payload}
use stavrobot_imcp_plugin.Response.Encode.{sent, encode_json, max_response_bytes}
use stavrobot_imcp_plugin.Response.Encode.Limit.{encode_json-within, fallback_bytes}
use stavrobot_imcp_plugin.Bridge.Responses.{bad_gateway}
use stavrobot_imcp_plugin.Http.{
  HttpExc, http_failure, timed_out, disconnected, unexpected, Ended, Reply, Frame, Exchange, ◌>>=◌,
  write_payload, is_call_tool, on_exception, unknown_or, unknown, set_status,
}

-- The wire carries one answer more, whatever becomes of it.
abbrev pub WritesOnce : Exchange → Fields → ℕ → Frame → Type 0
WritesOnce ex payload status_code f =
    (bs : Bytes) × (flag : Bool) × (encode_json payload max_response_bytes ≡ sent bs flag)
    × (length bs ≤ max_response_bytes)
    × (write_payload ex payload status_code f ≡ (
      ex.write f.replies,
      record f { replies = record { status_code = status_code; body = bs } ∷ f.replies },
    ))

room : length fallback_bytes ≤ max_response_bytes
room = omega arith

pub write_payload_lem :
    (ex : Exchange) (payload : Fields) (status_code : ℕ) (f : Frame)
    → WritesOnce ex payload status_code f
unfolding write_payload
write_payload_lem ex payload status_code f =
    let (bs, flag, e, le, _) = encode_json-within payload max_response_bytes room in
    (bs, flag, e, le, rw e refl)

-- One answer more, of at most the size limit, and no other change to what was run.
abbrev pub Wrote : Frame → Ended (Unit {0}) × Frame → Type 0
Wrote f r =
    (reply : Reply) × (r.1.runs ≡ f.runs)
    × (r.1.replies ≡ reply ∷ f.replies)
    × (length reply.body ≤ max_response_bytes)

write_payload-Wrote :
    (ex : Exchange) (payload : Fields) (status_code : ℕ) (f : Frame)
    → Wrote f (write_payload ex payload status_code f)
write_payload-Wrote ex payload status_code f =
    let (bs, _, _, le, e) = write_payload_lem ex payload status_code f in
    (record { status_code = status_code; body = bs }, rw e refl, rw e refl, le)

-- A disconnected client is the one that gets no answer.
abbrev pub Handled : Frame → Ended (Unit {0}) × Frame → Type 0
Handled f r =
    Wrote f r
    ⊎ ((r.1.runs ≡ f.runs) × (r.1.replies ≡ f.replies) × (r.1.status ≡ codes "client_disconnected"))

unknown_or-Wrote :
    (ex : Exchange) (payload : Fields) (status_code : ℕ) (f : Frame)
    → Wrote f (unknown_or ex payload status_code f)
unfolding unknown_or unknown set_status ◌>>=◌
unknown_or-Wrote ex payload status_code f = elim (Bool-cases (is_call_tool f.request)) [
  | inl e ↦ rw (e) (
      write_payload-Wrote ex unknown_outcome_payload bad_gateway
        (record f { status = codes "unknown_outcome" }))
  | inr e ↦ rw (e) (write_payload-Wrote ex payload status_code f)
]

pub on_exception-Handled :
    (ex : Exchange) (e : HttpExc) (f : Frame) → Handled f (on_exception ex e f)
unfolding on_exception set_status
on_exception-Handled ex (http_failure status code message) f =
    inl (write_payload-Wrote ex (error_payload code message end) status f)
on_exception-Handled ex timed_out f = inl (
    unknown_or-Wrote ex (error_payload (codes "timeout") (codes "bridge operation timed out") end)
      504 f)
on_exception-Handled ex disconnected f = inr (refl, refl, refl)
on_exception-Handled ex unexpected f = inl (
    unknown_or-Wrote ex (error_payload (codes "internal_error") (codes "bridge request failed") end)
      500 f)

-- What stands on the wire for a tool call of unknown outcome.
abbrev pub IsUnknown : Frame → Ended (Unit {0}) × Frame → Type 0
IsUnknown f r =
    (body : Bytes) × (flag : Bool) × (encode_json unknown_outcome_payload max_response_bytes
      ≡ sent body flag)
    × (r.1.replies ≡ record { status_code = bad_gateway; body = body } ∷ f.replies)
    × (r.1.status ≡ codes "unknown_outcome")

unknown_or-call :
    (ex : Exchange) (payload : Fields) (status_code : ℕ) (f : Frame)
    → is_call_tool f.request ≡ true
    → IsUnknown f (unknown_or ex payload status_code f)
unfolding unknown_or unknown set_status ◌>>=◌
unknown_or-call ex payload status_code f call =
    let (bs, flag, s, le, e) =
      write_payload_lem ex unknown_outcome_payload bad_gateway
        (record f { status = codes "unknown_outcome" }) in
    (bs, flag, s, rw (call, e) refl, rw (call, e) refl)

pub on_exception-call :
    (ex : Exchange) (e : HttpExc) (f : Frame)
    → is_call_tool f.request ≡ true
    → (e ≡ timed_out) ⊎ (e ≡ unexpected)
    → IsUnknown f (on_exception ex e f)
unfolding on_exception
on_exception-call ex timed_out f call kind =
    unknown_or-call ex (error_payload (codes "timeout") (codes "bridge operation timed out") end)
      504 f call
on_exception-call ex unexpected f call kind =
    unknown_or-call ex (error_payload (codes "internal_error") (codes "bridge request failed") end)
      500 f call
on_exception-call ex disconnected f call kind = ground arith
on_exception-call ex (http_failure status code message) f call kind = ground arith
