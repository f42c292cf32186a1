-- ===== src/Bridge/Service/Requests.antt =====
-- The tool calls that `execute` sends (bridge/server.py).
use stavrobot_imcp_plugin.Prelude.{
  ℕ, zero, suc, ◌≡◌, refl, ap, ◌∙◌, ◌⊎◌, inl, inr, Text, codes, text_eq, text_eq_iff, true, Option,
  none, some, List, [], ◌∷◌, if◌then◌else◌, Bool-cases,
}
use stavrobot_imcp_plugin.Json.{Value, str, Items, Fields, get}
use stavrobot_imcp_plugin.Bridge.Effects.{
  Event, made, awaited, opened, initialized, closed, called, listed, History, World, Answer, Env, M,
  pure, emit, await_bounded,
}
use stavrobot_imcp_plugin.Bridge.Effects.Keeps.{Keeps, keeps_rules, await_bounded-Keeps}
use stavrobot_imcp_plugin.Bridge.Effects.Triples.{
  Triple, Triple-bind, Triple-await_bounded, Triple-try_else, Triple-bounded_phase_timeout,
}
use stavrobot_imcp_plugin.Bridge.Session.{Config, ensure_session_locked, mark_session_dead_locked}
use stavrobot_imcp_plugin.Bridge.Session.Quiet.{
  IsQuiet, is_setup, ensure_session_locked-Keeps, mark_session_dead_locked-Keeps, sleep-quiet,
}
use stavrobot_imcp_plugin.Bridge.Responses.{
  invalid_request, arguments_of, not_allowed, OperationResponse, Validated, valid, invalid,
  tool_response, validate_tool_name, allows,
}
use stavrobot_imcp_plugin.Bridge.Service.Actions.{
  unavailable-Keeps, after_page-Keeps, list_failed-Keeps, health-Keeps, call_failed-Keeps,
  or_unknown_outcome-Keeps,
}
use stavrobot_imcp_plugin.Bridge.Service.{
  Sdk, classify, call_failed, call_tool_method, dispatch, call_tool, list_failed, request_page,
  list_pages, list_on, list_tools, execute_call, execute_operation, execute,
}

-- The tool calls that were sent, latest first, with their arguments.
unfoldable pub sent_calls : History → List (Text × Fields)
sent_calls [] = []
sent_calls (called _ name arguments _ _ ∷ h) = (name, arguments) ∷ sent_calls h
sent_calls (_ ∷ h) = sent_calls h

module _ (sdk : Sdk) (env : Env) (config : Config) (calls : List (Text × Fields)) where
  Same : World → Type 0
  Same w = sent_calls w.history ≡ calls

  Same-IsQuiet : IsQuiet Same
  unfolding Same sent_calls
  Same-IsQuiet = record { same_history = λ w s c m h. h; setup = λ w e s h. setup w.history e s h }
    where
      setup :
          (past : History) (e : Event)
          → is_setup e ≡ true
          → sent_calls past ≡ calls
          → sent_calls (e ∷ past) ≡ calls
      setup past (called _ _ _ _ _) s h = cc
      setup past (listed _ _ _ _) s h = h
      setup past (made _) s h = h
      setup past (awaited _ _) s h = h
      setup past (opened _ _ _) s h = h
      setup past (initialized _ _ _) s h = h
      setup past (closed _) s h = h

  listed-Keeps : (s now t : ℕ) (cursor : Option Text) → Keeps Same (emit (listed s cursor now t))
  unfolding Same sent_calls emit
  listed-Keeps s now t cursor = record { at = λ w h. h }

  ensure-Keeps : (deadline : Option ℕ) → Keeps Same (ensure_session_locked env config deadline)
  ensure-Keeps = ensure_session_locked-Keeps env config Same-IsQuiet

  mark-Keeps : Keeps Same (mark_session_dead_locked env config)
  mark-Keeps = mark_session_dead_locked-Keeps env config Same-IsQuiet

  wait-Keeps :
      {A : Type 0} (answer : Answer A) (timeout : ℕ) → Keeps Same (await_bounded answer timeout)
  wait-Keeps = await_bounded-Keeps (sleep-quiet env config Same-IsQuiet)

  request_page-Keeps :
      (s d now : ℕ) (cursor : Option Text) → Keeps Same (request_page sdk env config s cursor d now)
  unfolding request_page
  request_page-Keeps s d now cursor = search (keeps_rules, listed-Keeps, wait-Keeps) depth 12

  list_pages-Keeps :
      (rounds s d : ℕ) (tools : Items) (cursor : Option Text) (seen : List Text)
      → Keeps Same (list_pages sdk env config rounds s d tools cursor seen)
  unfolding list_pages
  list_pages-Keeps zero s d tools cursor seen = search keeps_rules
  list_pages-Keeps (suc rounds) s d tools cursor seen = rounds_of (list_pages-Keeps rounds s d)
    where
      rounds_of :
          ((tools : Items) (cursor : Option Text) (seen : List Text)
            → Keeps Same (list_pages sdk env config rounds s d tools cursor seen))
          → Keeps Same (list_pages sdk env config (suc rounds) s d tools cursor seen)
      rounds_of k =
          search (keeps_rules, request_page-Keeps, after_page-Keeps sdk env config mark-Keeps, k)
            depth 12

  list_tools-Keeps : (deadline : Option ℕ) → Keeps Same (list_tools sdk env config deadline)
  unfolding list_tools list_on list_failed
  list_tools-Keeps deadline =
      search
        (
          keeps_rules,
          ensure-Keeps,
          unavailable-Keeps sdk env config mark-Keeps,
          list_pages-Keeps,
          list_failed-Keeps sdk env config mark-Keeps,
        )
        depth 12

Keeps-either :
    {A : Type 0} (P Q : World → Type 0) (m : M A) → Keeps P m → Keeps Q m → Keeps (λ w. P w ⊎ Q w) m
Keeps-either P Q m kp kq = record { at = λ w. go w }
  where
    go : (w : World) → P w ⊎ Q w → P (m w).1 ⊎ Q (m w).1
    go w (inl h) = inl (kp.at w h)
    go w (inr h) = inr (kq.at w h)

module _ (sdk : Sdk) (env : Env) (config : Config) (calls : List (Text × Fields)) where
  -- At most the call of `name` with `arguments` was sent besides `calls`.
  AtMost : Text → Fields → World → Type 0
  AtMost name arguments w =
      (sent_calls w.history ≡ calls) ⊎ (sent_calls w.history ≡ (name, arguments) ∷ calls)

  abbrev Past : World → Type 0
  Past w = sent_calls w.history ≡ calls

  call_tool_method-AtMost :
      (s : ℕ) (name : Text) (arguments : Fields) (deadline : Option ℕ)
      → Triple Past
          (call_tool_method sdk env config s name arguments deadline)
          (λ r w. AtMost name arguments w)
  unfolding call_tool_method AtMost sent_calls
  call_tool_method-AtMost s name arguments deadline =
      Triple-bind (λ r w. Past w) (λ r w. AtMost name arguments w) _ _
        (Triple-bounded_phase_timeout config.call_timeout deadline)
        (λ timeout. record {
          at = λ w h.
              (Triple-await_bounded {P = AtMost name arguments} (λ r w. AtMost name arguments w)
                  (env.call_tool (called s name arguments w.clock timeout ∷ w.history)) timeout
                  (λ r n w h. h)).at
                (record w { history = called s name arguments w.clock timeout ∷ w.history })
                (inr (ap (◌∷◌ (name, arguments)) h));
        })
        (λ e w h. inl h)

  both :
      {A : Type 0} (name : Text) (arguments : Fields) (m : M A)
      → ((l : List (Text × Fields)) → Keeps (Same sdk env config l) m)
      → Keeps (AtMost name arguments) m
  unfolding AtMost Same
  both name arguments m k = Keeps-either _ _ m (k calls) (k ((name, arguments) ∷ calls))

  as-Triple : {A : Type 0} (P : World → Type 0) (m : M A) → Keeps P m → Triple P m (λ r w. P w)
  as-Triple P m k = record { at = k.at }

  call_tool-AtMost :
      (name : Text) (arguments : Fields) (deadline : Option ℕ)
      → Triple Past
          (call_tool sdk env config name arguments deadline)
          (λ r w. AtMost name arguments w)
  unfolding call_tool dispatch call_failed AtMost Same
  call_tool-AtMost name arguments deadline =
      Triple-try_else (λ r w. Past w) (λ r w. AtMost name arguments w) _ _ _
        (as-Triple Past _ (ensure-Keeps sdk env config calls deadline))
        (λ e. record {
          at = λ w h.
              inl (
                (unavailable-Keeps sdk env config (mark-Keeps sdk env config calls) name e).at w h);
        })
        (λ s.
          Triple-try_else (λ r w. AtMost name arguments w) (λ r w. AtMost name arguments w) _ _ _
            (call_tool_method-AtMost s name arguments deadline)
            (λ e. as-Triple (AtMost name arguments) _ (
              both name arguments _ (λ l.
                call_failed-Keeps sdk env config (mark-Keeps sdk env config l) name e
                  (classify sdk env config e))))
            (λ result. as-Triple (AtMost name arguments) _ (
              both name arguments _ (λ l.
                or_unknown_outcome-Keeps sdk env config (mark-Keeps sdk env config l) name
                  (tool_response name result)))))

  -- The call that a request asks for, where it is one that may be sent.
  abbrev pub Asks : Fields → Text → Fields → Type 0
  Asks request name arguments =
      (get (codes "operation") request ≡ some (str (codes "call_tool")))
      × (validate_tool_name sdk.codec_message (get (codes "name") request) ≡ valid name)
      × (arguments_of (get (codes "arguments") request) ≡ some arguments)
      × (allows config name ≡ true)

  abbrev pub Sent : Fields → World → Type 0
  Sent request w =
      (sent_calls w.history ≡ calls)
      ⊎ ((name : Text) × (arguments : Fields) × Asks request name arguments
          × (sent_calls w.history ≡ (name, arguments) ∷ calls))

  quiet_Sent :
      (request : Fields) (m : M OperationResponse)
      → Keeps (Same sdk env config calls) m
      → Triple Past m (λ r w. Sent request w)
  unfolding Same
  quiet_Sent request m k = record { at = λ w h. inl (k.at w h) }

  pure_Sent :
      (request : Fields) (r : OperationResponse) → Triple Past (pure r) (λ r w. Sent request w)
  pure_Sent request r = record { at = λ w h. inl h }

  execute_call-Sent :
      (request : Fields) (deadline : Option ℕ) (name : Validated)
      → get (codes "operation") request ≡ some (str (codes "call_tool"))
      → validate_tool_name sdk.codec_message (get (codes "name") request) ≡ name
      → Triple Past (execute_call sdk env config request deadline name) (λ r w. Sent request w)
  unfolding execute_call AtMost
  execute_call-Sent request deadline (invalid message) op e = pure_Sent request _
  execute_call-Sent request deadline (valid name) op e =
      go (arguments_of (get (codes "arguments") request)) refl
    where
      go :
          (o : Option Fields)
          → arguments_of (get (codes "arguments") request) ≡ o
          → Triple Past
              (elim o [
                | none ↦ pure (invalid_request (codes "arguments must be a JSON object") name)
                | some arguments ↦
                    if allows config name
                    then call_tool sdk env config name arguments deadline
                    else pure (not_allowed name)
              ])
              (λ r w. Sent request w)
      go none a = pure_Sent request _
      go (some arguments) a = elim (Bool-cases (allows config name)) [
        | inl t ↦ rw t (record {
          at = λ w h. elim ((call_tool-AtMost name arguments deadline).at w h) [
            | inl same ↦ inl same
            | inr more ↦ inr (name, arguments, (op, e, a, t), more)
          ];
        })
        | inr t ↦ rw t (pure_Sent request _)
      ]

  execute_operation-Sent :
      (request : Fields) (deadline : Option ℕ) (operation : Option Value)
      → get (codes "operation") request ≡ operation
      → Triple Past
          (execute_operation sdk env config request deadline operation)
          (λ r w. Sent request w)
  unfolding execute_operation
  execute_operation-Sent request deadline (some (str operation)) e =
      elim (Bool-cases (text_eq operation (codes "health"))) [
        | inl t ↦
            rw t
              (quiet_Sent request _ (health-Keeps sdk env config (mark-Keeps sdk env config calls)))
        | inr t ↦ elim (Bool-cases (text_eq operation (codes "list_tools"))) [
          | inl t' ↦
              rw (t, t') (quiet_Sent request _ (list_tools-Keeps sdk env config calls deadline))
          | inr t' ↦ elim (Bool-cases (text_eq operation (codes "call_tool"))) [
            | inl t'' ↦
                rw (t, t', t'')
                  (execute_call-Sent request deadline _
                    (e
                      ∙ ap (λ (o : Text). some (str o))
                          ((text_eq_iff operation (codes "call_tool")).0 t''))
                    refl)
            | inr t'' ↦ rw (t, t', t'') (pure_Sent request _)
          ]
        ]
      ]
  execute_operation-Sent request deadline none e = pure_Sent request _
  execute_operation-Sent request deadline (some _) e = pure_Sent request _

-- Whatever the request, the world and the environment: `execute` sends no tool call, or exactly
-- one, the one that the request names with the arguments that it carries; then its operation is
-- `call_tool`, its name is valid and allowed and its arguments are an object.
pub execute_sends :
    (sdk : Sdk) (env : Env) (config : Config) (request : Fields) (deadline : Option ℕ) (w : World)
    → Sent sdk env config
        (sent_calls w.history)
        request
        (execute sdk env config request deadline w).1
unfolding execute
execute_sends sdk env config request deadline w =
    (execute_operation-Sent sdk env config (sent_calls w.history) request deadline
        (get (codes "operation") request) refl).at
      w refl
