-- ===== src/Bridge/Responses/Selection.antt =====
-- The tools of a page that a listing keeps (`_list_tools`, bridge/server.py).
use mathlib.Core.Path.{subst}
use mathlib.Core.Option.{some-injective, none-ne-some}
use mathlib.Core.List.{Memᴰ}
use mathlib.Core.List.Memᴰ.{head, tail, not-nil}
use stavrobot_imcp_plugin.Prelude.{
  Text, sym, true, Option, none, some, List, [], ◌∷◌, ◌≡◌, ◌⊎◌, refl, arith, Bool-cases,
  Option-cases, inl, inr,
}
use stavrobot_imcp_plugin.Json.{Value, Items, nil, cons}
use stavrobot_imcp_plugin.Json.Convert.{json_value}
use stavrobot_imcp_plugin.Bridge.Effects.{
  Exc, Outcome, ok, raised, Tool, Page, Found, found, absent, mistyped,
}
use stavrobot_imcp_plugin.Bridge.Session.{Config}
use stavrobot_imcp_plugin.Bridge.Responses.{
  allows, allowed_name, select_tools, append_items, read_page, page_tools, page_cursor,
}

-- The tool is an entry of a page that satisfies `P`.
pub data IsOn (P : Page → Type 0) (tool : Tool) : Type 0 where
  on_page :
      (page : Page) (tools : List Tool)
      → P page
      → page.raw_tools ≡ found tools
      → Memᴰ tool tools
      → IsOn P tool

-- The value is the conversion of a tool with an allowed name, which is one of those in `Q`.
pub record IsAllowedTool (Q : Tool → Type 0) (config : Config) (v : Value) : Type 0 where
  pub tool : Tool
  pub name : Text
  pub is_there : Q tool
  pub named : tool.name ≡ some name
  pub allowed : allows config name ≡ true
  pub converted : json_value tool.content ≡ some v

abbrev pub AllTools : (Tool → Type 0) → Config → Items → Type 0
AllTools Q config nil = Unit
AllTools Q config (cons v vs) = IsAllowedTool Q config v × AllTools Q config vs

pub AllTools-weaken :
    (Q R : Tool → Type 0) (config : Config) (xs : Items)
    → ((tool : Tool) → Q tool → R tool)
    → AllTools Q config xs
    → AllTools R config xs
AllTools-weaken Q R config nil k h = tt
AllTools-weaken Q R config (cons x xs) k h = (
  record {
    tool = h.0.tool;
    name = h.0.name;
    is_there = k h.0.tool h.0.is_there;
    named = h.0.named;
    allowed = h.0.allowed;
    converted = h.0.converted;
  },
  AllTools-weaken Q R config xs k h.1,
)

pub IsOn-weaken :
    (P R : Page → Type 0) (tool : Tool)
    → ((page : Page) → P page → R page)
    → IsOn P tool
    → IsOn R tool
IsOn-weaken P R tool k (on_page page tools p q m) = on_page page tools (k page p) q m

pub append_items-AllTools :
    (Q : Tool → Type 0) (config : Config) (xs ys : Items)
    → AllTools Q config xs
    → AllTools Q config ys
    → AllTools Q config (append_items xs ys)
unfolding append_items
append_items-AllTools Q config nil ys h k = k
append_items-AllTools Q config (cons x xs) ys h k =
    (h.0, append_items-AllTools Q config xs ys h.1 k)

allowed_name_lem :
    (config : Config) (name : Option Text)
    → allowed_name config name ≡ true
    → (n : Text) × (name ≡ some n) × (allows config n ≡ true)
unfolding allowed_name
allowed_name_lem config none h = ground arith
allowed_name_lem config (some n) h = (n, refl, h)

select_tools-AllTools :
    (Q : Tool → Type 0) (config : Config) (tools : List Tool) (items : Items)
    → ((tool : Tool) → Memᴰ tool tools → Q tool)
    → select_tools config tools ≡ some items
    → AllTools Q config items
unfolding select_tools
select_tools-AllTools Q config [] items there h =
    subst (AllTools Q config) (some-injective nil items h) tt
select_tools-AllTools Q config (tool ∷ tools) items there h =
    elim (Bool-cases (allowed_name config tool.name)) [
      | inr e ↦
          select_tools-AllTools Q config tools items (λ t m. there t (tail m))
            (rw (select_tools, e) at h)
      | inl e ↦ elim (Option-cases (json_value tool.content)) [
        | inl k ↦ absurd (none-ne-some items (rw (select_tools, e, k) at h))
        | inr (v, k) ↦ elim (Option-cases (select_tools config tools)) [
          | inl l ↦ absurd (none-ne-some items (rw (select_tools, e, k, l) at h))
          | inr (vs, l) ↦
              let (name, n, a) = allowed_name_lem config tool.name e in
              subst (AllTools Q config)
                (some-injective (cons v vs) items (rw (select_tools, e, k, l) at h))
                (
                  record {
                    tool = tool;
                    name = name;
                    is_there = there tool (head refl);
                    named = n;
                    allowed = a;
                    converted = k;
                  },
                  select_tools-AllTools Q config tools vs (λ t m. there t (tail m)) l,
                )
        ]
      ]
    ]

-- What a page that satisfies `P` gives, unless it is refused.
abbrev pub IsRead : (Page → Type 0) → Config → Outcome (Items × Option Text) → Type 0
IsRead P config (ok entry) = AllTools (IsOn P) config entry.0
IsRead P config (raised e) = Unit

Outcome-cases : {A : Type 0} (r : Outcome A) → ((e : Exc) × (r ≡ raised e)) ⊎ ((a : A) × (r ≡ ok a))
Outcome-cases (raised e) = inl (e, refl)
Outcome-cases (ok a) = inr (a, refl)

-- The tools that `_page_tools` gives are those of the page.
page_tools-IsOn :
    (P : Page → Type 0) (page : Page) (f : Found (List Tool)) (raw : List Tool)
    → P page
    → page.raw_tools ≡ f
    → page_tools f ≡ ok raw
    → (tool : Tool) → Memᴰ tool raw
    → IsOn P tool
unfolding page_tools
page_tools-IsOn P page absent raw p q e tool m =
    let r : ◌≡◌ {A = List Tool} [] raw = cc in absurd (not-nil (subst (Memᴰ tool) (sym r) m))
page_tools-IsOn P page (found tools) raw p q e tool m =
    let r : tools ≡ raw = cc in on_page page tools p q (subst (Memᴰ tool) (sym r) m)
page_tools-IsOn P page mistyped raw p q e tool m = cc

pub read_page-IsRead :
    (P : Page → Type 0) (config : Config) (page : Page)
    → P page
    → IsRead P config (read_page config page)
unfolding read_page
read_page-IsRead P config page p = elim (Outcome-cases (page_tools page.raw_tools)) [
  | inl (e, k) ↦ rw (read_page, k) tt
  | inr (raw, k) ↦ elim (Outcome-cases (page_cursor page.raw_cursor)) [
    | inl (e, l) ↦ rw (read_page, k, l) tt
    | inr (next, l) ↦ elim (Option-cases (select_tools config raw)) [
      | inl m ↦ rw (read_page, k, l, m) tt
      | inr (items, m) ↦
          rw (read_page, k, l, m)
            (select_tools-AllTools (IsOn P) config raw items
              (page_tools-IsOn P page page.raw_tools raw p refl k) m)
    ]
  ]
]
