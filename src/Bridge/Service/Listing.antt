-- ===== src/Bridge/Service/Listing.antt =====
-- The tools that `_list_tools` answers with (bridge/server.py).
use stavrobot_imcp_plugin.Prelude.{
  ℕ, zero, suc, Text, codes, mem_text, false, Option, none, some, List, [], ◌∷◌, ◌==◌, ◌+◌, ◌++◌,
  ap, ◌-◌, leb, ◌≡◌, ◌⊎◌, inl, inr, refl, Bool-cases, Option-cases,
}
use stavrobot_imcp_plugin.Json.{arr, obj, Items, nil, end, field}
use stavrobot_imcp_plugin.Response.Payload.{McpError, mcp_error_payload, success_payload}
use stavrobot_imcp_plugin.Bridge.Effects.{
  Exc, timeout_error, cancelled_error, mcp_error, session_unavailable, failure, Outcome, ok, raised,
  World, History, Event, listed, Page, Env, M, pure, raise, ◌>>=◌, continue, catch, recover, either,
  try_else, lift, gets, emit, await_bounded,
}
use stavrobot_imcp_plugin.Bridge.Session.{Config, ensure_session_locked, mark_session_dead_locked}
use stavrobot_imcp_plugin.Bridge.Responses.{
  OperationResponse, status_ok, unavailable_response, unknown_outcome_response, mcp_error_response,
  error_response, append_items, read_page, max_list_pages, or_failure, invalid_mcp_response,
  listed_response,
}
use stavrobot_imcp_plugin.Bridge.Responses.Selection.{
  IsOn, AllTools, AllTools-weaken, IsOn-weaken, append_items-AllTools, IsRead, read_page-IsRead,
}
use stavrobot_imcp_plugin.Bridge.Service.{
  Sdk, Handled, re_raise, unknown, report, unknown_outcome, retire_and_raise, unavailable,
  list_failed_as, list_failed, request_page, after_page, finish_list, list_pages, list_on,
  list_tools, classify,
}

-- A request for a page is among the events, and the environment answers it with this page.
pub IsAnswered : Env → History → Page → Type 0
IsAnswered env events page =
    (s : ℕ) × (cursor : Option Text) × (now : ℕ) × (timeout : ℕ) × (earlier : History)
    × (later : History) × (events ≡ later ++ listed s cursor now timeout ∷ earlier)
    × ((env.list_tools (listed s cursor now timeout ∷ earlier)).result ≡ ok page)

-- Each is the conversion of an allowed tool of a page that the environment has answered with.
abbrev pub Held : Env → Config → Items → World → Type 0
Held env config tools w = AllTools (IsOn (IsAnswered env w.history)) config tools

-- An answer that is no success, or one whose result holds the conversions of allowed tools only, each
-- an entry of a page that the environment has answered with.
pub IsListing : Env → Config → Outcome OperationResponse → World → Type 0
IsListing env config (raised e) w = Unit
IsListing env config (ok r) w =
    ((r.status_code == status_ok) ≡ false)
    ⊎ ((tools : Items) × Held env config tools w
        × (success_payload (obj (field (codes "tools") (arr tools) end)) ≡ some r.payload))

abbrev Everywhere : World → Type 0
Everywhere w = Unit

-- From a world with `P`, the action ends in a listing.
record Yields (env : Env) (config : Config) (P : World → Type 0) (m : M OperationResponse)
    : Type 0 where
  at : (w : World) → P w → IsListing env config (m w).0 (m w).1

module _ {A : Type 0} (env : Env) (config : Config) where
  continue_any :
      (f : A → M OperationResponse) (r : Outcome A) (w : World)
      → ((a : A) → r ≡ ok a → IsListing env config (f a w).0 (f a w).1)
      → IsListing env config (continue r f w).0 (continue r f w).1
  unfolding continue IsListing
  continue_any f (ok a) w k = k a refl
  continue_any f (raised e) w k = tt

  -- What follows may use what holds of a value that `m` returns.
  Yields-bind_of :
      {P : World → Type 0} (Q : A → World → Type 0) (m : M A) (f : A → M OperationResponse)
      → ((w : World) → P w → (a : A) → (m w).0 ≡ ok a → Q a (m w).1)
      → ((a : A) → Yields env config (Q a) (f a))
      → Yields env config P (m >>= f)
  unfolding ◌>>=◌
  Yields-bind_of Q m f h k = record {
    at = λ w p. continue_any f (m w).0 (m w).1 (λ a e. (k a).at (m w).1 (h w p a e));
  }

  Yields-bind :
      {P : World → Type 0} (m : M A) (f : A → M OperationResponse)
      → ((a : A) → Yields env config Everywhere (f a))
      → Yields env config P (m >>= f)
  Yields-bind m f k = Yields-bind_of (λ a. Everywhere) m f (λ w p a e. tt) k

  either_any :
      (f : Exc → M OperationResponse) (g : A → M OperationResponse)
      → ((e : Exc) → Yields env config Everywhere (f e))
      → ((a : A) → Yields env config Everywhere (g a))
      → (r : Outcome A) (w : World) → IsListing env config (either r f g w).0 (either r f g w).1
  unfolding either
  either_any f g kf kg (ok a) w = (kg a).at w tt
  either_any f g kf kg (raised e) w = (kf e).at w tt

  Yields-try_else :
      (m : M A) (f : Exc → M OperationResponse) (g : A → M OperationResponse)
      → ((e : Exc) → Yields env config Everywhere (f e))
      → ((a : A) → Yields env config Everywhere (g a))
      → Yields env config Everywhere (try_else m f g)
  unfolding try_else
  Yields-try_else m f g kf kg = record { at = λ w p. either_any f g kf kg (m w).0 (m w).1 }

recover_any :
    (env : Env) (config : Config) (f : Exc → M OperationResponse)
    → ((e : Exc) → Yields env config Everywhere (f e))
    → (r : Outcome OperationResponse) (w : World) → IsListing env config r w
    → IsListing env config (recover r f w).0 (recover r f w).1
unfolding recover
recover_any env config f k (ok a) w h = h
recover_any env config f k (raised e) w h = (k e).at w tt

Yields-catch :
    {P : World → Type 0} (env : Env) (config : Config) (m : M OperationResponse)
    (f : Exc → M OperationResponse)
    → Yields env config P m
    → ((e : Exc) → Yields env config Everywhere (f e))
    → Yields env config P (catch m f)
unfolding catch
Yields-catch env config m f km kf = record {
  at = λ w p. recover_any env config f kf (m w).0 (m w).1 (km.at w p);
}

Yields-raise :
    {P : World → Type 0} (env : Env) (config : Config) (e : Exc) → Yields env config P (raise e)
unfolding IsListing
Yields-raise env config e = record { at = λ w p. tt }

Yields-refused :
    {P : World → Type 0} (env : Env) (config : Config) (r : OperationResponse)
    → (r.status_code == status_ok) ≡ false
    → Yields env config P (pure r)
unfolding IsListing
Yields-refused env config r h = record { at = λ w p. inl h }

module _ (sdk : Sdk) (env : Env) (config : Config) where
  unknown_outcome-Yields :
      (name : Text) → Yields env config Everywhere (unknown_outcome sdk env config name)
  unfolding unknown_outcome unknown_outcome_response
  unknown_outcome-Yields name =
      Yields-bind env config (mark_session_dead_locked env config) _
        (λ _. Yields-refused env config (unknown_outcome_response name) refl)

  retire_and_raise-Yields :
      (e : Exc) → Yields env config Everywhere (retire_and_raise sdk env config e)
  unfolding retire_and_raise
  retire_and_raise-Yields e =
      Yields-bind env config (mark_session_dead_locked env config) _
        (λ _. Yields-raise env config e)

  unavailable-Yields :
      (name : Text) (e : Exc) → Yields env config Everywhere (unavailable sdk env config name e)
  unfolding unavailable unavailable_response
  unavailable-Yields name (session_unavailable a) =
      Yields-refused env config (unavailable_response name a) refl
  unavailable-Yields name cancelled_error = Yields-raise env config cancelled_error
  unavailable-Yields name timeout_error =
      Yields-refused env config (unavailable_response name false) refl
  unavailable-Yields name (mcp_error e) =
      Yields-refused env config (unavailable_response name false) refl
  unavailable-Yields name failure = Yields-refused env config (unavailable_response name false) refl

  reported :
      (error : McpError) (w : World)
      → IsListing env config (mcp_error_response (codes "list_tools") error) w
  unfolding mcp_error_response IsListing
  reported error w = elim (Option-cases (mcp_error_payload error)) [
    | inl e ↦ rw (IsListing, mcp_error_response, e) tt
    | inr (payload, e) ↦ rw (IsListing, mcp_error_response, e) (inl refl)
  ]

  list_failed-Yields :
      (e : Exc) (handled : Handled)
      → Yields env config Everywhere (list_failed_as sdk env config e handled)
  unfolding list_failed_as lift
  list_failed-Yields e re_raise = retire_and_raise-Yields e
  list_failed-Yields e unknown = unknown_outcome-Yields (codes "list_tools")
  list_failed-Yields e (report error) = record { at = λ w p. reported error w }

  finish_list-Yields :
      (tools : Items) → Yields env config (Held env config tools) (finish_list sdk env config tools)
  unfolding finish_list ◌>>=◌ lift or_failure listed_response IsListing continue
  finish_list-Yields tools =
      elim (Option-cases (success_payload (obj (field (codes "tools") (arr tools) end)))) [
        | inl e ↦ record { at = λ w h. rw e tt }
        | inr (payload, e) ↦ record { at = λ w h. rw e (inr (tools, h, e)) }
      ]

  after_page-Yields :
      (tools : Items) (next : Option Text) (seen : List Text)
      (next_round : Text → M OperationResponse)
      → ((c : Text) → Yields env config (Held env config tools) (next_round c))
      → Yields env config
          (Held env config tools)
          (after_page sdk env config tools next seen next_round)
  unfolding after_page invalid_mcp_response error_response
  after_page-Yields tools none seen next_round k = finish_list-Yields tools
  after_page-Yields tools (some c) seen next_round k = elim (Bool-cases (mem_text c seen)) [
    | inl e ↦
        rw e (
          Yields-refused env config (invalid_mcp_response (codes "repeated tools/list cursor"))
            refl)
    | inr e ↦ rw e (k c)
  ]

  -- The end of a round, once its page is read.
  round-Yields :
      (rounds s d : ℕ) (tools : Items) (seen : List Text) (r : Outcome (Items × Option Text))
      → ((more : Items) (c : Text)
          → Yields env config
              (Held env config more)
              (list_pages sdk env config rounds s d more (some c) (c ∷ seen)))
      → Yields env config
          (λ w. Held env config tools w × IsRead (IsAnswered env w.history) config r)
          (lift r >>= λ entry.
            after_page sdk env config (append_items tools entry.0) entry.1 seen (λ c.
              list_pages sdk env config rounds s d
                (append_items tools entry.0)
                (some c)
                (c ∷ seen)))
  unfolding ◌>>=◌ lift IsListing continue
  round-Yields rounds s d tools seen (raised e) n = record { at = λ w h. tt }
  round-Yields rounds s d tools seen (ok entry) n = record {
    at = λ w h.
        (after_page-Yields (append_items tools entry.0) entry.1 seen _
            (λ c. n (append_items tools entry.0) c)).at
          w (append_items-AllTools (IsOn (IsAnswered env w.history)) config tools entry.0 h.0 h.1);
  }

  -- A later event takes nothing from what is held.
  Held-later :
      (e : Event) (n : ℕ) (tools : Items) (w : World)
      → Held env config tools w
      → Held env config tools (record w { history = e ∷ w.history; clock = n })
  unfolding IsAnswered
  Held-later e n tools w h =
      AllTools-weaken _ _ config tools
        (λ tool. IsOn-weaken _ _ tool (λ page (s, cursor, now, timeout, earlier, later, q, a).
          (s, cursor, now, timeout, earlier, e ∷ later, ap (◌∷◌ e) q, a)))
        h

  -- A page that the request returns is one that the environment has answered with.
  request_page-IsAnswered :
      (s d now : ℕ) (cursor : Option Text) (tools : Items) (w : World)
      → Held env config tools w
      → (page : Page) → (request_page sdk env config s cursor d now w).0 ≡ ok page
      → Held env config tools (request_page sdk env config s cursor d now w).1
        × IsAnswered env (request_page sdk env config s cursor d now w).1.history page
  unfolding request_page ◌>>=◌ continue gets emit await_bounded IsAnswered
  request_page-IsAnswered s d now cursor tools w held page e = elim (Bool-cases (leb d now)) [
    | inl late ↦ cc (rw (request_page, late) at e)
    | inr early ↦
        let h : History = listed s cursor now (d - now) ∷ w.history in
        elim (Bool-cases (leb (env.list_tools h).took (d - now))) [
          | inl in_time ↦
              rw (request_page, early, in_time)
                (
                  Held-later (listed s cursor now (d - now)) (w.clock + (env.list_tools h).took)
                      tools w held,
                  (
                    s,
                    cursor,
                    now,
                    d - now,
                    w.history,
                    [],
                    refl,
                    rw (request_page, early, in_time) at e,
                  ),
                )
          | inr over ↦ cc (rw (request_page, early, over) at e)
        ]
  ]

  list_pages-Yields :
      (rounds s d : ℕ) (tools : Items) (cursor : Option Text) (seen : List Text)
      → Yields env config
          (Held env config tools)
          (list_pages sdk env config rounds s d tools cursor seen)
  unfolding list_pages invalid_mcp_response error_response gets
  list_pages-Yields zero s d tools cursor seen =
      Yields-refused env config (invalid_mcp_response (codes "tools/list returned too many pages"))
        refl
  list_pages-Yields (suc rounds) s d tools cursor seen =
      Yields-bind_of env config (λ now. Held env config tools) (gets (λ w. w.clock)) _
        (λ w held now e. held)
        (λ now.
          Yields-bind_of env config
            (λ page w.
              Held env config tools w
              × IsRead (IsAnswered env w.history) config (read_page config page))
            (request_page sdk env config s cursor d now) _
            (λ w held page e.
              let r = request_page-IsAnswered s d now cursor tools w held page e in
              (r.0, read_page-IsRead (IsAnswered env _) config page r.1))
            (λ page.
              round-Yields rounds s d tools seen (read_page config page)
                (λ more c. list_pages-Yields rounds s d more (some c) (c ∷ seen))))

  list_on-Yields :
      (deadline : Option ℕ) (s : ℕ)
      → Yields env config Everywhere (list_on sdk env config deadline s)
  unfolding list_on list_failed
  list_on-Yields deadline s = Yields-bind env config (gets (λ w. w.clock)) _ (λ now.
      Yields-catch env config _ (list_failed sdk env config)
        (list_pages-Yields max_list_pages s _ nil none [])
        (λ e. list_failed-Yields e (classify sdk env config e)))

-- Whatever the allowlist, the world, the environment and the deadline: if `_list_tools` answers with
-- status 200, its payload is the success envelope of a list of which every element is the conversion of
-- an entry, with an allowed name, of a page with which the environment answered a request that was made.
pub list_tools-IsListing :
    (sdk : Sdk) (env : Env) (config : Config) (deadline : Option ℕ) (w : World)
    → IsListing env config
        (list_tools sdk env config deadline w).0
        (list_tools sdk env config deadline w).1
unfolding list_tools
list_tools-IsListing sdk env config deadline w =
    (Yields-try_else env config (ensure_session_locked env config deadline)
        (unavailable sdk env config (codes "list_tools")) (list_on sdk env config deadline)
        (unavailable-Yields sdk env config (codes "list_tools"))
        (list_on-Yields sdk env config deadline)).at
      w tt
