-- ===== src/Probe/Listing/Terminates.antt =====
-- The loop of `_list_all_tools` (scripts/probe_imcp.py): it ends, and what it returns.
use mathlib.Core.List.{append_assoc}
use mathlib.Core.Path.{subst}
use stavrobot_imcp_plugin.Prelude.{
  ℕ, zero, suc, ◌+◌, ◌≤◌, ◌<◌, Text, text_eq, text_eq_iff, mem_text, true, false, Option, none,
  some, List, [], ◌∷◌, ◌++◌, map, length, ◌≡◌, refl, sym, ap, ◌∙◌, arith, inl, inr, Bool-cases,
  if◌then◌else◌,
}
use stavrobot_imcp_plugin.Json.{Value}
use stavrobot_imcp_plugin.Probe.{Page, Result, ok, error, World, Mac}
use stavrobot_imcp_plugin.Probe.Listing.{
  Round, finished, again, cursor_round, page_round, metadata_for_tool, request_page, list_pages,
  connect, list_connected, list_all_tools,
}

-- How many of the cursors were not seen.
remaining : List Text → List Text → ℕ
remaining [] seen = 0
remaining (c ∷ cs) seen = (if mem_text c seen then 0 else 1) + remaining cs seen

remaining-le : (cs seen : List Text) (c : Text) → remaining cs (c ∷ seen) ≤ remaining cs seen
unfolding remaining mem_text
remaining-le [] seen c = omega arith
remaining-le (d ∷ cs) seen c = ground (arith, remaining-le cs seen c)

-- A cursor that is met for the first time leaves fewer.
remaining-lt :
    (cs seen : List Text) (c : Text)
    → mem_text c cs ≡ true
    → mem_text c seen ≡ false
    → remaining cs (c ∷ seen) < remaining cs seen
unfolding remaining mem_text
remaining-lt [] seen c h new = cc
remaining-lt (d ∷ cs) seen c h new = elim (Bool-cases (text_eq c d)) [
  | inl equal ↦
      let e = (text_eq_iff c d).0 equal in
      rw (← e) (ground (arith, remaining-le cs seen c, text_eq_iff c c))
  | inr other ↦ ground (arith, remaining-lt cs seen c)
]

remaining-nil : (cs : List Text) → remaining cs [] ≡ length cs
unfolding remaining mem_text
remaining-nil [] = refl
remaining-nil (c ∷ cs) = omega (arith, remaining-nil cs)

module _ (mac : Mac) where
  -- Each next cursor is one of `cs`.
  abbrev pub HasCursors : List Text → Type 0
  HasCursors cs =
      (cursor : Option Text) (w : World) (p : Page) (c : Text)
      → (request_page mac cursor w).0 ≡ ok p
      → p.next_cursor ≡ some c
      → mem_text c cs ≡ true

  -- What a round that goes on had found.
  record Continues (r : Result Page) (seen : List Text) (tools : List Value) (w : World) (c : Text)
      (t : List Value) (v : World) : Type 0 where
    found : Page
    answered : r ≡ ok found
    next : found.next_cursor ≡ some c
    fresh : mem_text c seen ≡ false
    collected : t ≡ tools ++ map metadata_for_tool found.tools
    same : v ≡ w

  cursor_round-again :
      (cursor : Option Text) (seen : List Text) (tools : List Value) (w : World) (c : Text)
      (t : List Value) (v : World)
      → cursor_round cursor seen tools w ≡ again c t v
      → (cursor ≡ some c) × (mem_text c seen ≡ false) × (t ≡ tools) × (v ≡ w)
  unfolding cursor_round
  cursor_round-again none seen tools w c t v h = cc
  cursor_round-again (some d) seen tools w c t v h = ground arith

  page_round-again :
      (r : Result Page) (seen : List Text) (tools : List Value) (w : World) (c : Text)
      (t : List Value) (v : World)
      → page_round mac r seen tools w ≡ again c t v
      → Continues r seen tools w c t v
  unfolding page_round
  page_round-again (error e) seen tools w c t v h = cc
  page_round-again (ok p) seen tools w c t v h =
      let (next, fresh, collected, same) =
        cursor_round-again p.next_cursor seen (tools ++ map metadata_for_tool p.tools) w c t v h in
      record {
        found = p;
        answered = refl;
        next = next;
        fresh = fresh;
        collected = collected;
        same = same;
      }

  list_pages_total :
      (cs : List Text)
      → HasCursors cs
      → (n : ℕ) (cursor : Option Text) (seen : List Text) (tools : List Value) (w : World)
      → remaining cs seen < n
      → (r : Result (List Value) × World) × (list_pages mac n cursor seen tools w ≡ some r)
  unfolding list_pages
  list_pages_total cs known zero cursor seen tools w h = absurd (omega arith)
  list_pages_total cs known (suc n) cursor seen tools w h =
      go (page_round mac (request_page mac cursor w).0 seen tools (request_page mac cursor w).1)
        (page_round-again (request_page mac cursor w).0 seen tools (request_page mac cursor w).1)
        (λ c t v. list_pages_total cs known n (some c) (c ∷ seen) t v)
    where
      go :
          (r : Round)
          → ((c : Text) (t : List Value) (v : World)
              → r ≡ again c t v
              → Continues
                  (request_page mac cursor w).0
                  seen
                  tools
                  (request_page mac cursor w).1
                  c
                  t
                  v)
          → ((c : Text) (t : List Value) (v : World)
              → remaining cs (c ∷ seen) < n
              → (x : Result (List Value) × World) × (list_pages mac n (some c) (c ∷ seen) t v
                  ≡ some x))
          → (x : Result (List Value) × World) × (elim r [
            | finished r' w' ↦ some (r', w')
            | again c t v ↦ list_pages mac n (some c) (c ∷ seen) t v
          ]
              ≡ some x)
      go (finished r w') goes later = ((r, w'), refl)
      go (again c t v) goes later =
          let g = goes c t v refl in
          later c t v (
            omega
              (arith, remaining-lt cs seen c (known cursor w g.found c g.answered g.next) g.fresh))

  list_connected_total :
      (cs : List Text)
      → HasCursors cs
      → (fuel : ℕ) (r : Result Unit) (w : World) → length cs < fuel
      → (x : Result (List Value) × World) × (list_connected mac fuel r w ≡ some x)
  unfolding list_connected
  list_connected_total cs known fuel (ok u) w h =
      list_pages_total cs known fuel none [] [] w (omega (arith, remaining-nil cs))
  list_connected_total cs known fuel (error e) w h = (_, refl)

  -- The loop over the pages ends: if each next cursor of the server is one of finitely many, then
  -- one round more than there are cursors gives a result, a listing or an error.
  pub list_all_tools_total :
      (cs : List Text)
      → HasCursors cs
      → (fuel : ℕ) (w : World) → length cs < fuel
      → (x : Result (List Value) × World) × (list_all_tools mac fuel w ≡ some x)
  unfolding list_all_tools
  list_all_tools_total cs known fuel w h =
      list_connected_total cs known fuel (connect mac w).0 (connect mac w).1 h

  -- From `cursor` on, the pages up to the one without a next cursor hold the tools `ts`.
  pub data Pages : Option Text → World → List Value → World → Type 0 where
    last :
        {cursor : Option Text} {w : World} (p : Page)
        → (request_page mac cursor w).0 ≡ ok p
        → p.next_cursor ≡ none
        → Pages cursor w (map metadata_for_tool p.tools) (request_page mac cursor w).1
    more :
        {cursor : Option Text} {w w' : World} {ts : List Value} (p : Page) (c : Text)
        → (request_page mac cursor w).0 ≡ ok p
        → p.next_cursor ≡ some c
        → Pages (some c) (request_page mac cursor w).1 ts w'
        → Pages cursor w (map metadata_for_tool p.tools ++ ts) w'

  -- What a round that returns tools had found.
  record Returns (r : Result Page) (tools : List Value) (w : World) (result : List Value)
      (v : World) : Type 0 where
    found : Page
    answered : r ≡ ok found
    next : found.next_cursor ≡ none
    collected : result ≡ tools ++ map metadata_for_tool found.tools
    same : v ≡ w

  cursor_round-finished :
      (cursor : Option Text) (seen : List Text) (tools : List Value) (w : World)
      (result : List Value) (v : World)
      → cursor_round cursor seen tools w ≡ finished (ok result) v
      → (cursor ≡ none) × (result ≡ tools) × (v ≡ w)
  unfolding cursor_round
  cursor_round-finished none seen tools w result v h = ground arith
  cursor_round-finished (some d) seen tools w result v h = absurd (ground arith)

  page_round-finished :
      (r : Result Page) (seen : List Text) (tools : List Value) (w : World) (result : List Value)
      (v : World)
      → page_round mac r seen tools w ≡ finished (ok result) v
      → Returns r tools w result v
  unfolding page_round
  page_round-finished (error e) seen tools w result v h = cc
  page_round-finished (ok p) seen tools w result v h =
      let (next, collected, same) =
        cursor_round-finished p.next_cursor seen (tools ++ map metadata_for_tool p.tools) w result v
          h in
      record { found = p; answered = refl; next = next; collected = collected; same = same }

  -- What the loop returns, it adds to what it had.
  abbrev Listed : Option Text → World → List Value → List Value → World → Type 0
  Listed cursor w tools result w' =
      (ts : List Value) × Pages cursor w ts w' × (result ≡ tools ++ ts)

  Returns-Listed :
      (cursor : Option Text) (tools : List Value) (w : World) (result : List Value) (v : World)
      → Returns (request_page mac cursor w).0 tools (request_page mac cursor w).1 result v
      → Listed cursor w tools result v
  Returns-Listed cursor tools w result v h = (
    map metadata_for_tool h.found.tools,
    subst (Pages cursor w (map metadata_for_tool h.found.tools)) (sym h.same)
        (last h.found h.answered h.next),
    h.collected,
  )

  Continues-Listed :
      (cursor : Option Text) (seen : List Text) (tools : List Value) (w : World) (c : Text)
      (t : List Value) (v : World) (result : List Value) (w' : World)
      → Continues (request_page mac cursor w).0 seen tools (request_page mac cursor w).1 c t v
      → Listed (some c) v t result w'
      → Listed cursor w tools result w'
  Continues-Listed cursor seen tools w c t v result w' h (ts, pages, e) = (
    map metadata_for_tool h.found.tools ++ ts,
    more h.found c h.answered h.next (subst (λ u. Pages (some c) u ts w') h.same pages),
    e ∙ ap (λ x. x ++ ts) h.collected ∙ append_assoc tools (map metadata_for_tool h.found.tools) ts,
  )

  list_pages-Listed :
      (n : ℕ) (cursor : Option Text) (seen : List Text) (tools : List Value) (w w' : World)
      {result : List Value}
      → list_pages mac n cursor seen tools w ≡ some (ok result, w')
      → Listed cursor w tools result w'
  unfolding list_pages
  list_pages-Listed zero cursor seen tools w w' h = cc
  list_pages-Listed (suc n) cursor seen tools w w' {result} h =
      go (page_round mac (request_page mac cursor w).0 seen tools (request_page mac cursor w).1)
        refl (λ c t v. list_pages-Listed n (some c) (c ∷ seen) t v w' {result = result}) h
    where
      go :
          (r : Round)
          → page_round mac (request_page mac cursor w).0 seen tools (request_page mac cursor w).1
            ≡ r
          → ((c : Text) (t : List Value) (v : World)
              → list_pages mac n (some c) (c ∷ seen) t v ≡ some (ok result, w')
              → Listed (some c) v t result w')
          → ◌≡◌ {A = Option (Result (List Value) × World)}
              (elim r [
                | finished r' v ↦ some (r', v)
                | again c t v ↦ list_pages mac n (some c) (c ∷ seen) t v
              ])
              (some (ok result, w'))
          → Listed cursor w tools result w'
      go (finished r v) q later h' = Returns-Listed cursor tools w result w' (
          page_round-finished (request_page mac cursor w).0 seen tools (request_page mac cursor w).1
            result w' (q ∙ cc))
      go (again c t v) q later h' =
          Continues-Listed cursor seen tools w c t v result w'
            (page_round-again (request_page mac cursor w).0 seen tools (request_page mac cursor w).1
              c t v q)
            (later c t v h')

  -- A listing is the metadata of the tools of all pages, in their order: from the first page, with no
  -- cursor, each page is asked for with the cursor of the page before, up to one without a next cursor.
  pub list_all_tools-Pages :
      (fuel : ℕ) (w w' : World) {tools : List Value}
      → list_all_tools mac fuel w ≡ some (ok tools, w')
      → Pages none (connect mac w).1 tools w'
  unfolding list_all_tools list_connected
  list_all_tools-Pages fuel w w' {tools} h = go (connect mac w).0 h
    where
      go :
          (r : Result Unit)
          → list_connected mac fuel r (connect mac w).1 ≡ some (ok tools, w')
          → Pages none (connect mac w).1 tools w'
      go (ok u) h' =
          let (ts, pages, e) = list_pages-Listed fuel none [] [] (connect mac w).1 w' h' in
          subst (λ x. Pages none (connect mac w).1 x w') (sym e) pages
      go (error e) h' = cc
