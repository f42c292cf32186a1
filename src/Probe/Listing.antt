-- ===== src/Probe/Listing.antt =====
-- `_metadata_for_tool` and `_list_all_tools` (scripts/probe_imcp.py).
pub mod Terminates
use stavrobot_imcp_plugin.Prelude.{
  ℕ, zero, suc, Text, codes, mem_text, Bool, true, false, Option, none, some, List, [], ◌∷◌, ◌++◌,
  map, if◌then◌else◌,
}
use stavrobot_imcp_plugin.Json.{Value, obj, end, field}
use stavrobot_imcp_plugin.Probe.{
  Tool, Page, Fetched, page, failed, timed_out, ProbeError, list_failed, list_timed_out,
  repeated_cursor, listed, Result, ok, error, World, Mac, M, pure, fail, continue, ◌>>=◌, ◌>>◌, ask,
  act,
}

unfoldable pub metadata_for_tool : Tool → Value
metadata_for_tool tool = obj (
    field (codes "name") tool.name (
      field (codes "description") tool.description
        (field (codes "inputSchema") tool.input_schema end)))

unfoldable pub page_of : Fetched → M Page
page_of (page p) = pure p
page_of failed = fail list_failed
page_of timed_out = fail list_timed_out

-- How a round ends: with the result, or with the next cursor.
pub data Round : Type 0 where
  finished : Result (List Value) → World → Round
  again : Text → List Value → World → Round

unfoldable pub cursor_round : Option Text → List Text → List Value → World → Round
cursor_round none seen tools w = finished (ok tools) w
cursor_round (some c) seen tools w =
    if mem_text c seen then finished (error repeated_cursor) w else again c tools w

module _ (mac : Mac) where
  -- `session.list_tools(params)`.
  unfoldable pub request_page : Option Text → M Page
  unfolding ◌>>=◌ ask act page_of
  request_page cursor = do
    act (listed cursor)
    answer ← ask (λ n. mac.list_tools n cursor)
    page_of answer

  -- One round of `while True`, from the answer.
  unfoldable pub page_round : Result Page → List Text → List Value → World → Round
  unfolding cursor_round
  page_round (error e) seen tools w = finished (error e) w
  page_round (ok p) seen tools w =
      cursor_round p.next_cursor seen (tools ++ map metadata_for_tool p.tools) w

  -- The loop with its cursor, those seen, and the tools so far; `none` means that the fuel ran out.
  unfoldable pub list_pages :
      ℕ → Option Text → List Text → List Value → World → Option (Result (List Value) × World)
  unfolding page_round
  list_pages zero cursor seen tools w = none
  list_pages (suc n) cursor seen tools w =
      elim (page_round (request_page cursor w).0 seen tools (request_page cursor w).1) [
        | finished r w' ↦ some (r, w')
        | again c tools' w' ↦ list_pages n (some c) (c ∷ seen) tools' w'
      ]

  connected : Option ProbeError → M (Unit {0})
  connected none = pure tt
  connected (some e) = fail e

  unfoldable pub connect : M (Unit {0})
  unfolding ◌>>=◌ ask connected
  connect = do answer ← ask mac.connect; connected answer

  list_connected : ℕ → Result (Unit {0}) → World → Option (Result (List Value) × World)
  unfolding list_pages
  list_connected fuel (ok _) w = list_pages fuel none [] [] w
  list_connected fuel (error e) w = some (error e, w)

  unfoldable pub list_all_tools : ℕ → World → Option (Result (List Value) × World)
  unfolding connect list_connected
  list_all_tools fuel w = list_connected fuel (connect w).0 (connect w).1
