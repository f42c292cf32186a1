-- ===== src/Http/Served.antt =====
-- What the handler gives to the runtime, and what it answers (bridge/server.py, `_handle`).
use mathlib.Core.Path.{subst}
use stavrobot_imcp_plugin.Prelude.{
  ◌≤◌, Text, codes, text_eq, text_eq_iff, text_eq_refl, Bool, true, false, Option, none, some, List,
  [], ◌∷◌, length, ◌≡◌, ap, refl, ◌≢◌, sym, ◌∙◌, arith, ◌⊎◌, inl, inr, Bool-cases, All,
}
use stavrobot_imcp_plugin.Json.{Fields}
use stavrobot_imcp_plugin.Json.Dump.{Bytes}
use stavrobot_imcp_plugin.Response.Payload.{unknown_outcome_payload}
use stavrobot_imcp_plugin.Response.Encode.{sent, encode_json, max_response_bytes}
use stavrobot_imcp_plugin.Bridge.Responses.{OperationResponse, bad_gateway}
use stavrobot_imcp_plugin.Http.Authorization.{SendsToken, authorized-SendsToken}
use stavrobot_imcp_plugin.Http.{
  HttpExc, http_failure, timed_out, unexpected, Ended, done, threw, Reply, Frame, Exchange, H, next,
  ◌>>=◌, rescue, authorized, read_request, is_call_tool, started, do_post, handle, attempt,
  run_request, take_request, finish, check_authorized, check_path, request_or_read, on_exception,
}
use stavrobot_imcp_plugin.Http.Bodies.{IsBodyOf, read_request_lem}
use stavrobot_imcp_plugin.Http.Replies.{write_payload_lem, on_exception-Handled, on_exception-call}

Ended-cases :
    {A : Type 0} (r : Ended A) → ((e : HttpExc) × (r ≡ threw e)) ⊎ ((a : A) × (r ≡ done a))
Ended-cases (threw e) = inl (e, refl)
Ended-cases (done a) = inr (a, refl)

-- The steps before the run leave the frame alone.
Refused : Exchange → Type 0
Refused ex = (e : HttpExc) × (attempt ex none (started none) ≡ (threw e, started none))

-- The caller has the token, the path is the bridge's, and the body is complete.
abbrev pub Admitted : Exchange → Fields → Type 0
Admitted ex request =
    (authorized ex.authorization ex.bridge_token ≡ done true)
    × (ex.url_path ≡ some ex.bridge_path)
    × (read_request ex ≡ done request)

run_frame : Fields → Frame
run_frame request = (take_request request (started none)).1

rest : Exchange → Fields → H (Unit {0})
unfolding ◌>>=◌
rest ex request = run_request ex request >>= finish ex

check_path_lem :
    (ex : Exchange) (p : Option Text) → check_path ex p ≡ done tt → p ≡ some ex.bridge_path
unfolding check_path
check_path_lem ex none h = ground arith
check_path_lem ex (some p) h = elim (Bool-cases (text_eq p ex.bridge_path)) [
  | inl e ↦ rw ((text_eq_iff p ex.bridge_path).0 e) refl
  | inr e ↦ ground arith
]

check_path_bridge :
    (ex : Exchange) → ex.url_path ≡ some ex.bridge_path → check_path ex ex.url_path ≡ done tt
unfolding check_path
check_path_bridge ex h = rw (ap (check_path ex) h, check_path, text_eq_refl ex.bridge_path)

attempt-Admitted :
    (ex : Exchange) (request : Fields)
    → Admitted ex request
    → attempt ex none (started none) ≡ rest ex request (run_frame request)
unfolding attempt rest run_frame ◌>>=◌ check_authorized request_or_read take_request
attempt-Admitted ex request h = rw (h.0, check_path_bridge ex h.1, h.2) refl

attempt-cases : (ex : Exchange) → Refused ex ⊎ ((request : Fields) × Admitted ex request)
unfolding attempt Refused ◌>>=◌ check_authorized request_or_read
attempt-cases ex = elim (Ended-cases (authorized ex.authorization ex.bridge_token)) [
  | inl (e, h) ↦ inl (e, rw h refl)
  | inr (false, h) ↦
      inl (http_failure 401 (codes "unauthorized") (codes "authentication required"), rw h refl)
  | inr (true, h) ↦ elim (Ended-cases (check_path ex ex.url_path)) [
    | inl (e, k) ↦ inl (e, rw (h, k) refl)
    | inr (u, k) ↦ elim (Ended-cases (read_request ex)) [
      | inl (e, l) ↦ inl (e, rw (h, k, l) refl)
      | inr (request, l) ↦ inr (request, (h, check_path_lem ex ex.url_path (k), l))
    ]
  ]
]

AllSmall : List Reply → Type 0
AllSmall replies = All (λ reply. length reply.body ≤ max_response_bytes) replies

cons-ne-nil : {reply : Reply} {replies : List Reply} → reply ∷ replies ≢ []
cons-ne-nil h = ground arith

-- What a request leaves behind, from a frame without answers.
IsAnswered : List Fields → Ended (Unit {0}) × Frame → Type 0
IsAnswered runs r =
    (r.1.runs ≡ runs)
    × AllSmall r.1.replies
    × ((r.1.replies ≢ []) ⊎ (r.1.status ≡ codes "client_disconnected"))

rescue-IsAnswered :
    (ex : Exchange) (end : Ended (Unit {0})) (f : Frame)
    → AllSmall f.replies
    → (f.replies ≢ []) ⊎ ((e : HttpExc) × (end ≡ threw e))
    → IsAnswered f.runs (rescue end (on_exception ex) f)
unfolding IsAnswered AllSmall rescue
rescue-IsAnswered ex (done u) f small (inl h) = (refl, small, inl h)
rescue-IsAnswered ex (done u) f small (inr (e, h)) = ground arith
rescue-IsAnswered ex (threw e) f small h = elim (on_exception-Handled ex e f) [
  | inl (reply, er, ep, le) ↦
      (er, subst AllSmall (sym ep) (le, small), inl (λ k. cons-ne-nil (sym ep ∙ k)))
  | inr (er, ep, es) ↦ (er, subst AllSmall (sym ep) small, inr es)
]

finish-IsAnswered :
    (ex : Exchange) (r : Ended OperationResponse) (f : Frame)
    → f.replies ≡ []
    → IsAnswered f.runs (rescue (next r (finish ex) f).0 (on_exception ex) (next r (finish ex) f).1)
unfolding next finish AllSmall
finish-IsAnswered ex (threw e) f h = rescue-IsAnswered ex (threw e) f (rw h tt) (inr (e, refl))
finish-IsAnswered ex (done result) f h =
    let (bs, _, _, le, e) =
      write_payload_lem ex result.payload result.status_code
        (record f { tool_name = result.tool_name; status = result.log_status }) in
    rw e (
      rescue-IsAnswered ex (ex.write f.replies)
        (record f {
          tool_name = result.tool_name;
          status = result.log_status;
          replies = record { status_code = result.status_code; body = bs } ∷ f.replies;
        })
        (le, rw h tt) (inl cons-ne-nil))

handle-IsAnswered :
    (ex : Exchange)
    → (IsAnswered [] (do_post ex))
      ⊎ ((request : Fields) × Admitted ex request × IsAnswered (request ∷ []) (do_post ex))
unfolding do_post handle Refused rest run_frame ◌>>=◌ run_request take_request AllSmall
handle-IsAnswered ex = elim (attempt-cases ex) [
  | inl (e, h) ↦ inl (rw h (rescue-IsAnswered ex (threw e) (started none) tt (inr (e, refl))))
  | inr (request, h) ↦ inr (
    request,
    h,
    rw (attempt-Admitted ex request h) (
        finish-IsAnswered ex (ex.run request) (record (run_frame request) { runs = request ∷ [] })
          refl),
  )
]

-- A tool call that was given to the runtime and timed out, was cancelled or failed there: one
-- answer is written, a 502 with the unknown-outcome envelope, and nothing else.
pub do_post-unknown_outcome :
    (ex : Exchange) (request : Fields) (e : HttpExc)
    → Admitted ex request
    → is_call_tool (some request) ≡ true
    → ex.run request ≡ threw e
    → (e ≡ timed_out) ⊎ (e ≡ unexpected)
    → (body : Bytes) × (flag : Bool) × (encode_json unknown_outcome_payload max_response_bytes
        ≡ sent body flag)
      × ((do_post ex).1.replies ≡ record { status_code = bad_gateway; body = body } ∷ [])
      × ((do_post ex).1.status ≡ codes "unknown_outcome")
unfolding do_post handle rest run_frame ◌>>=◌ next run_request take_request rescue
do_post-unknown_outcome ex request e h call ran kind =
    rw (attempt-Admitted ex request h, ran)
      (on_exception-call ex e (record (run_frame request) { runs = request ∷ [] }) call kind)

-- A POST gives the runtime at most one request, and only if the caller sent the bearer token, the
-- path is the bridge's, and the body is a complete JSON object within the limit: that object. Each
-- body that is written has at most `max_response_bytes` bytes, and one is written unless the
-- client is logged as disconnected.
pub do_post_lem :
    (ex : Exchange)
    → (((do_post ex).1.runs ≡ [])
        ⊎ ((request : Fields) × ((do_post ex).1.runs ≡ request ∷ [])
            × SendsToken ex.authorization ex.bridge_token
            × (ex.url_path ≡ some ex.bridge_path)
            × IsBodyOf ex request))
      × All (λ reply. length reply.body ≤ max_response_bytes) (do_post ex).1.replies
      × (((do_post ex).1.replies ≢ []) ⊎ ((do_post ex).1.status ≡ codes "client_disconnected"))
unfolding IsAnswered AllSmall
do_post_lem ex = elim (handle-IsAnswered ex) [
  | inl (runs, small, some_answer) ↦ (inl runs, small, some_answer)
  | inr (request, h, (runs, small, some_answer)) ↦ (
    inr (
      request,
      runs,
      authorized-SendsToken ex.authorization ex.bridge_token h.0,
      h.1,
      read_request_lem ex request h.2,
    ),
    small,
    some_answer,
  )
]
