-- ===== src/Client/Tools.antt =====
-- The two plugin tools: `main` of imcp_call/run.py and of imcp_list_tools/run.py.
use stavrobot_imcp_plugin.Prelude.{
  ℕ, Text, codes, text_eq, mem_text, Bool, true, false, ◌&&◌, Option, none, some, List, [], ◌∷◌,
  ◌≡◌, ◌≢◌, ◌⊎◌, inl, inr, refl, arith, Bool-cases, Option-cases, text_eq_iff, sym, ap, ◌∙◌,
}
use stavrobot_imcp_plugin.Json.{
  Value, null, bool, int, float, not_finite, str, arr, model, other, obj, Fields, end, field, get,
}
use stavrobot_imcp_plugin.Client.{Io, Sent, client_error, request_bridge, write_json, is_call}
use stavrobot_imcp_plugin.Client.Dispatch.{IsDispatched, IsLocal, request_bridge_lem}

-- The exit status, what stands on the standard output, and what was handed to the opener.
pub record Exit : Type 0 where
  pub status : ℕ
  pub stdout : Option Text
  pub opened : List Sent

local_error : List Sent → Text → Text → Exit
unfolding write_json
local_error opened code message = record {
  status = 1;
  stdout = write_json (client_error code message false);
  opened = opened;
}

written : List Sent → Option Text → Exit
unfolding local_error
written opened (some line) = record { status = 0; stdout = some line; opened = opened }
written opened none =
    local_error opened (codes "bridge_unavailable") (codes "bridge request failed")

-- `write_json(request_bridge(operation))`.
unfoldable pub report : Fields × List Sent → Exit
unfolding written write_json
report (payload, opened) = written opened (write_json payload)

known_keys : Fields → Bool
known_keys end = true
known_keys (field k v fs) = mem_text k (codes "name" ∷ codes "arguments" ∷ []) && known_keys fs

unfoldable pub call_operation : Text → Fields → Fields
call_operation name arguments =
    field (codes "operation") (str (codes "call_tool"))
      (field (codes "name") (str name) (field (codes "arguments") (obj arguments) end))

invalid_input : Text → Exit
unfolding local_error
invalid_input message = local_error [] (codes "invalid_input") message

call_with : Io → Value → Option Value → Exit
unfolding invalid_input report call_operation request_bridge
call_with io (str []) arguments = invalid_input (codes "name must be a non-empty string")
call_with io (str (c ∷ name)) none = report (request_bridge io (call_operation (c ∷ name) end))
call_with io (str (c ∷ name)) (some (obj arguments)) =
    report (request_bridge io (call_operation (c ∷ name) arguments))
call_with io (str (c ∷ name)) (some _) = invalid_input (codes "arguments must be a JSON object")
call_with io _ arguments = invalid_input (codes "name must be a non-empty string")

call_params : Io → Fields → Exit
unfolding known_keys call_with invalid_input
call_params io params = elim (known_keys params) [
  | false ↦ invalid_input (codes "unknown parameter")
  | true ↦ elim (get (codes "name") params) [
    | none ↦ invalid_input (codes "name is required")
    | some name ↦ call_with io name (get (codes "arguments") params)
  ]
]

-- `main` of imcp_call/run.py, on what `json.load` reads.
unfoldable pub call_main : Io → Option Value → Exit
unfolding call_params invalid_input
call_main io (some (obj params)) = call_params io params
call_main io _ = invalid_input (codes "tool input must be a JSON object")

-- `main` of imcp_list_tools/run.py.
unfoldable pub list_tools_main : Io → Option Value → Exit
unfolding invalid_input report request_bridge
list_tools_main io (some (obj end)) =
    report (request_bridge io (field (codes "operation") (str (codes "list_tools")) end))
list_tools_main io _ = invalid_input (codes "imcp_list_tools does not accept arguments")

-- Nothing was sent, and the tool fails.
IsRejected : Exit → Type 0
IsRejected e = (e.status ≡ 1) × (e.opened ≡ [])

-- The tool's input names a tool, holds a mapping of arguments or none, and has no other key.
pub record Asks (params : Option Value) (name : Text) (arguments : Fields) : Type 0 where
  pub fields : Fields
  pub mapping : params ≡ some (obj fields)
  pub only_known :
      (k : Text) (v : Value) → get k fields ≡ some v → (k ≡ codes "name") ⊎ (k ≡ codes "arguments")
  pub named : get (codes "name") fields ≡ some (str name)
  pub not_empty : name ≢ []
  pub given :
      (get (codes "arguments") fields ≡ some (obj arguments))
      ⊎ ((get (codes "arguments") fields ≡ none) × (arguments ≡ end))

-- A call of a tool with this name, if it is a text, and these arguments, if they are given.
Given : Value → Option Value → Text → Fields → Type 0
Given value given name arguments =
    (value ≡ str name)
    × (name ≢ [])
    × ((given ≡ some (obj arguments)) ⊎ ((given ≡ none) × (arguments ≡ end)))

Reported : Io → Exit → (Text → Fields → Type 0) → Type 0
Reported io e P =
    (name : Text) × (arguments : Fields) × P name arguments
    × (e ≡ report (request_bridge io (call_operation name arguments)))

IsReported : Io → Option Value → Exit → Type 0
unfolding Reported
IsReported io params e = Reported io e (Asks params)

cons-ne-nil : {c : ℕ} {s : Text} → c ∷ s ≢ []
cons-ne-nil h = ground arith

call_with-cases :
    (io : Io) (name : Value) (arguments : Option Value)
    → IsRejected (call_with io name arguments)
      ⊎ Reported io (call_with io name arguments) (Given name arguments)
unfolding call_with IsRejected Reported Given invalid_input local_error
call_with-cases io (str []) arguments = inl (refl, refl)
call_with-cases io (str (c ∷ name)) none =
    inr (c ∷ name, end, (refl, cons-ne-nil, inr (refl, refl)), refl)
call_with-cases io (str (c ∷ name)) (some (obj arguments)) =
    inr (c ∷ name, arguments, (refl, cons-ne-nil, inl refl), refl)
call_with-cases io (str (c ∷ name)) (some null) = inl (refl, refl)
call_with-cases io (str (c ∷ name)) (some (bool b)) = inl (refl, refl)
call_with-cases io (str (c ∷ name)) (some (int i)) = inl (refl, refl)
call_with-cases io (str (c ∷ name)) (some (float t)) = inl (refl, refl)
call_with-cases io (str (c ∷ name)) (some not_finite) = inl (refl, refl)
call_with-cases io (str (c ∷ name)) (some (str t)) = inl (refl, refl)
call_with-cases io (str (c ∷ name)) (some (arr xs)) = inl (refl, refl)
call_with-cases io (str (c ∷ name)) (some (model m)) = inl (refl, refl)
call_with-cases io (str (c ∷ name)) (some other) = inl (refl, refl)
call_with-cases io null arguments = inl (refl, refl)
call_with-cases io (bool b) arguments = inl (refl, refl)
call_with-cases io (int i) arguments = inl (refl, refl)
call_with-cases io (float t) arguments = inl (refl, refl)
call_with-cases io not_finite arguments = inl (refl, refl)
call_with-cases io (obj fs) arguments = inl (refl, refl)
call_with-cases io (arr xs) arguments = inl (refl, refl)
call_with-cases io (model m) arguments = inl (refl, refl)
call_with-cases io other arguments = inl (refl, refl)

known_keys_lem :
    (fs : Fields)
    → known_keys fs ≡ true
    → (k : Text) (v : Value) → get k fs ≡ some v
    → (k ≡ codes "name") ⊎ (k ≡ codes "arguments")
unfolding known_keys get mem_text
known_keys_lem end h k v e = cc
known_keys_lem (field j w fs) h k v e = elim (Bool-cases (text_eq j k)) [
  | inr n ↦ known_keys_lem fs (ground arith) k v (rw n at e)
  | inl n ↦ elim (Bool-cases (text_eq j (codes "name"))) [
    | inl m ↦ inl (sym ((text_eq_iff j k).0 n) ∙ (text_eq_iff j (codes "name")).0 m)
    | inr m ↦
        inr (sym ((text_eq_iff j k).0 n) ∙ (text_eq_iff j (codes "arguments")).0 (ground arith))
  ]
]

call_params-cases :
    (io : Io) (fs : Fields)
    → IsRejected (call_params io fs) ⊎ IsReported io (some (obj fs)) (call_params io fs)
unfolding call_params IsRejected IsReported Reported Given invalid_input local_error
call_params-cases io fs = elim (Bool-cases (known_keys fs)) [
  | inr e ↦ inl (rw (call_params, e) (refl, refl))
  | inl e ↦ elim (Option-cases (get (codes "name") fs)) [
    | inl k ↦ inl (rw (call_params, e, k) (refl, refl))
    | inr (value, k) ↦ elim (call_with-cases io value (get (codes "arguments") fs)) [
      | inl h ↦ inl (rw (call_params, e, k) h)
      | inr (name, arguments, (is_name, ne, given), h) ↦ inr (
        name,
        arguments,
        record {
          fields = fs;
          mapping = refl;
          only_known = known_keys_lem fs e;
          named = k ∙ ap some is_name;
          not_empty = ne;
          given = given;
        },
        rw (call_params, e, k) h,
      )
    ]
  ]
]

is_call-call_operation :
    (name : Text) (arguments : Fields) → is_call (call_operation name arguments) ≡ true
unfolding is_call call_operation get text_eq
is_call-call_operation name arguments = refl

-- What the tool exits with after a reply.
pub IsPrinted : Fields → Exit → Type 0
IsPrinted payload e =
    ((e.status ≡ 0) × (e.stdout ≡ write_json payload))
    ⊎ ((e.status ≡ 1) × (write_json payload ≡ none))

report-IsPrinted :
    (payload : Fields) (opened : List Sent)
    → IsPrinted payload (report (payload, opened)) × ((report (payload, opened)).opened ≡ opened)
unfolding report IsPrinted written local_error
report-IsPrinted payload opened = elim (Option-cases (write_json payload)) [
  | inl e ↦ (rw e (inr (refl, refl)), rw e refl)
  | inr (line, e) ↦ (rw e (inl (refl, refl)), rw e refl)
]

pub IsCallOf : Io → Text → Fields → Exit → Type 0
IsCallOf io name arguments e =
    (reply : Fields) × (IsLocal (reply, e.opened)
      ⊎ IsDispatched io (call_operation name arguments) (reply, e.opened))
    × IsPrinted reply e

report_lem :
    (io : Io) (name : Text) (arguments : Fields)
    → IsCallOf io name arguments (report (request_bridge io (call_operation name arguments)))
unfolding IsCallOf
report_lem io name arguments =
    let (reply, opened) = request_bridge io (call_operation name arguments) in
    let (printed, same) = report-IsPrinted reply opened in
    (
      reply,
      rw same (
          request_bridge_lem io (call_operation name arguments)
            (is_call-call_operation name arguments)),
      printed,
    )

call_main-cases :
    (io : Io) (params : Option Value)
    → IsRejected (call_main io params) ⊎ IsReported io params (call_main io params)
unfolding call_main IsRejected invalid_input local_error
call_main-cases io none = inl (refl, refl)
call_main-cases io (some (obj fs)) = call_params-cases io fs
call_main-cases io (some null) = inl (refl, refl)
call_main-cases io (some (bool b)) = inl (refl, refl)
call_main-cases io (some (int i)) = inl (refl, refl)
call_main-cases io (some (float t)) = inl (refl, refl)
call_main-cases io (some not_finite) = inl (refl, refl)
call_main-cases io (some (str t)) = inl (refl, refl)
call_main-cases io (some (arr xs)) = inl (refl, refl)
call_main-cases io (some (model m)) = inl (refl, refl)
call_main-cases io (some other) = inl (refl, refl)

-- imcp_call either sends nothing and exits with 1, or its input is a mapping with a non-empty text under
-- `name`, a mapping or nothing under `arguments` and no other key, and it makes one `call_tool`
-- operation of that name and those arguments, no arguments if none are given: that operation is sent
-- at most once, and what is printed with exit status 0 is a local error, the redacted envelope of the
-- bridge or the unknown outcome. It exits with 1 after that only if the reply cannot be written as
-- JSON.
pub call_main_lem :
    (io : Io) (params : Option Value)
    → ((call_main io params).status ≡ 1) × ((call_main io params).opened ≡ [])
      ⊎ ((name : Text) × (arguments : Fields) × Asks params name arguments
          × IsCallOf io name arguments (call_main io params))
unfolding IsRejected IsReported Reported
call_main_lem io params = elim (call_main-cases io params) [
  | inl h ↦ inl h
  | inr (name, arguments, asks, e) ↦
      inr (name, arguments, asks, rw e (report_lem io name arguments))
]
