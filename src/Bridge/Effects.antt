-- ===== src/Bridge/Effects.antt =====
-- Exceptions, time and the outside world of the bridge service (bridge/server.py).
-- An asynchronous method that runs under `self._lock` is a function from a world to an outcome and
-- the next world. What the session factory, the SDK and the clock do is a function of the history,
-- so a theorem about every environment is one about everything that they may do.
-- Times and timeouts are whole numbers of one small unit.
pub mod Keeps
pub mod Triples
pub mod Deadlines
use stavrobot_imcp_plugin.Prelude.{
  ℕ, ◌+◌, ◌-◌, Text, Bool, Option, none, some, List, ◌∷◌, leb, min, if◌then◌else◌,
}
use stavrobot_imcp_plugin.Json.{Value, Fields}
use stavrobot_imcp_plugin.Response.Payload.{McpError}

-- The exceptions that the service tells apart: asyncio's TimeoutError and CancelledError, the SDK's
-- MCPError, SessionUnavailableError with its `app_reachable`, and any other `Exception`.
pub data Exc : Type 0 where
  timeout_error cancelled_error : Exc
  mcp_error : McpError → Exc
  session_unavailable : Bool → Exc
  failure : Exc

pub data Outcome (A : Type 0) : Type 0 where
  ok : A → Outcome A
  raised : Exc → Outcome A

-- A `_SessionOwner`, as the service sees it: the number of its context, whether its task was
-- started, and whether the context was entered.
pub record Owner : Type 0 where
  pub id : ℕ
  pub started : Bool
  pub entered : Bool

-- The fields of `BridgeService` that change. A session is named by its context.
pub record Service : Type 0 where
  pub session_owner : Option Owner
  pub session : Option ℕ
  pub session_known_dead : Bool
  pub last_app_reachable : Option Bool

-- What the service does to the outside. A bounded wait shows the time at which it begins and its
-- timeout.
pub data Event : Type 0 where
  -- `session_factory()`, and the wait for a candidate that is awaitable.
  made : ℕ → Event
  awaited : ℕ → ℕ → Event
  -- The owner's task enters context `id`.
  opened : ℕ → ℕ → ℕ → Event
  initialized : ℕ → ℕ → ℕ → Event
  -- `session.call_tool(name, arguments)` on session `id`.
  called : ℕ → Text → Fields → ℕ → ℕ → Event
  -- `session.list_tools(cursor)` on session `id`.
  listed : ℕ → Option Text → ℕ → ℕ → Event
  -- The owner of context `id` is told to exit it.
  closed : ℕ → Event

-- Latest first.
abbrev pub History : Type 0
History = List Event

pub record World : Type 0 where
  pub service : Service
  pub open service use *
  pub clock : ℕ
  pub made_contexts : ℕ
  pub history : History

-- How long an awaitable takes, and how it ends; a cancellation of the caller ends it too.
pub record Answer (A : Type 0) : Type 0 where
  pub took : ℕ
  pub result : Outcome A

pub data Candidate : Type 0 where
  -- A context manager or a bare session.
  ready : Candidate
  awaitable : Answer Unit → Candidate
  raises : Exc → Candidate

-- `late`: the context finishes entering while its task is being cancelled.
pub record Entry : Type 0 where
  pub answer : Answer Unit
  pub late : Bool

-- An SDK result: the model, and its `is_error`.
pub record ToolResult : Type 0 where
  pub content : Value
  pub is_error : Bool

-- An entry of a page: its `name` if that is a string, and the model.
pub record Tool : Type 0 where
  pub name : Option Text
  pub content : Value

-- What `page.tools` and `page.next_cursor` hold: nothing, a value of the expected type, another.
pub data Found (A : Type 0) : Type 0 where
  absent : Found A
  found : A → Found A
  mistyped : Found A

pub record Page : Type 0 where
  pub raw_tools : Found (List Tool)
  pub raw_cursor : Found Text

pub record Env : Type 0 where
  pub factory : History → Candidate
  pub enter : History → Entry
  pub initialize : History → Answer Unit
  pub call_tool : History → Answer ToolResult
  pub list_tools : History → Answer Page
  pub exit : History → ℕ

abbrev pub M : Type 0 → Type 0
M A = World → Outcome A × World

abbrev pub pure : {A : Type 0} → A → M A
pure a w = (ok a, w)

abbrev pub raise : {A : Type 0} → Exc → M A
raise e w = (raised e, w)

unfoldable pub continue : {A B : Type 0} → Outcome A → (A → M B) → M B
continue (ok a) f w = f a w
continue (raised e) f w = (raised e, w)

infixl 5 ◌>>=◌ ◌>>◌
unfoldable pub ◌>>=◌ : {A B : Type 0} → M A → (A → M B) → M B
unfolding continue
◌>>=◌ m f w = let (r, w') = m w in continue r f w'

abbrev pub ◌>>◌ : {B : Type 0} → M (Unit {0}) → M B → M B
m >> k = m >>= λ _. k

unfoldable pub recover : {A : Type 0} → Outcome A → (Exc → M A) → M A
recover (ok a) f w = (ok a, w)
recover (raised e) f w = f e w

-- `try: m  except ...`.
unfoldable pub catch : {A : Type 0} → M A → (Exc → M A) → M A
unfolding recover
catch m f w = let (r, w') = m w in recover r f w'

unfoldable pub either : {A B : Type 0} → Outcome A → (Exc → M B) → (A → M B) → M B
either (ok a) f k w = k a w
either (raised e) f k w = f e w

-- `try: a = m  except ...: return ...`, and the rest of the block outside the `try`.
unfoldable pub try_else : {A B : Type 0} → M A → (Exc → M B) → (A → M B) → M B
unfolding either
try_else m f k w = let (r, w') = m w in either r f k w'

unfoldable pub lift : {A : Type 0} → Outcome A → M A
lift r w = (r, w)

unfoldable pub gets : {A : Type 0} → (World → A) → M A
gets f w = (ok (f w), w)

unfoldable pub modify_service : (Service → Service) → M (Unit {0})
modify_service f w = (ok tt, record w { service = f w.service })

unfoldable pub emit : Event → M (Unit {0})
emit e w = (ok tt, record w { history = e ∷ w.history })

unfoldable pub sleep : ℕ → M (Unit {0})
sleep n w = (ok tt, record w { clock = w.clock + n })

-- `_await_bounded(awaitable, timeout)`.
unfoldable pub await_bounded : {A : Type 0} → Answer A → ℕ → M A
await_bounded answer timeout w =
    if leb answer.took timeout
    then (answer.result, record w { clock = w.clock + answer.took })
    else (raised timeout_error, record w { clock = w.clock + timeout })

remaining_of : ℕ → ℕ → ℕ → M ℕ
remaining_of configured deadline now =
    if leb deadline now then raise timeout_error else pure (min configured (deadline - now))

-- `_bounded_phase_timeout`.
unfoldable pub bounded_phase_timeout : ℕ → Option ℕ → M ℕ
unfolding ◌>>=◌ gets remaining_of
bounded_phase_timeout configured none = pure configured
bounded_phase_timeout configured (some deadline) = do
  now ← gets (λ w. w.clock)
  remaining_of configured deadline now
