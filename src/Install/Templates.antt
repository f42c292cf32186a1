-- ===== src/Install/Templates.antt =====
-- Rendering a LaunchAgent template (`_render_value`, `render_plist` of
-- scripts/install_login_services.py) and the comparison of two property lists.
use stavrobot_imcp_plugin.Prelude.{
  ℕ, suc, Text, codes, text_eq, Bool, true, false, ◌&&◌, ◌||◌, Option, none, some, ◌==◌,
  if◌then◌else◌,
}
use stavrobot_imcp_plugin.Json.Dump.{Bytes, ◌>>=◌}
use stavrobot_imcp_plugin.Client.{replace, contains}

-- A value of a property list; a `dict` is the sequence of its items. A number, a Boolean, a date or
-- data is named by its class under `==`.
mutual
  pub data Plist : Type 0 where
    text : Text → Plist
    array : Entries → Plist
    dict : Pairs → Plist
    scalar : ℕ → Plist

  pub data Entries : Type 0 where
    nil : Entries
    cons : Plist → Entries → Entries

  pub data Pairs : Type 0 where
    end : Pairs
    pair : Text → Plist → Pairs → Pairs

abbrev pub home_marker : Text
home_marker = codes "{{ .chezmoi.homeDir }}"

-- `document[key]`, for a key that may be missing.
unfoldable pub find_pair : Text → Pairs → Option Plist
find_pair k end = none
find_pair k (pair j v ps) = if text_eq j k then some v else find_pair k ps

-- `document[key] = value`.
unfoldable pub set_pair : Text → Plist → Pairs → Pairs
set_pair k w end = pair k w end
set_pair k w (pair j v ps) = if text_eq j k then pair j w ps else pair j v (set_pair k w ps)

unfoldable mutual
  unfolding set_pair

  pub render_value : Text → Plist → Plist
  render_value home (text s) = text (replace home_marker home 0 s)
  render_value home (array xs) = array (render_entries home xs)
  render_value home (dict ps) = dict (render_pairs home ps end)
  render_value home (scalar n) = scalar n

  pub render_entries : Text → Entries → Entries
  render_entries home nil = nil
  render_entries home (cons x xs) = cons (render_value home x) (render_entries home xs)

  -- The comprehension adds its items one by one to what it has.
  pub render_pairs : Text → Pairs → Pairs → Pairs
  render_pairs home end rendered = rendered
  render_pairs home (pair k v ps) rendered =
      render_pairs home ps (set_pair (replace home_marker home 0 k) (render_value home v) rendered)

unfoldable pub count_pairs : Pairs → ℕ
count_pairs end = 0
count_pairs (pair k v ps) = suc (count_pairs ps)

-- Python's `==` on two documents.
unfoldable mutual
  unfolding find_pair count_pairs

  pub plist_eq : Plist → Plist → Bool
  plist_eq (text s) (text t) = text_eq s t
  plist_eq (array xs) (array ys) = entries_eq xs ys
  plist_eq (dict ps) (dict qs) = count_pairs ps == count_pairs qs && pairs_in ps qs
  plist_eq (scalar n) (scalar k) = n == k
  plist_eq _ _ = false

  pub entries_eq : Entries → Entries → Bool
  entries_eq nil nil = true
  entries_eq nil (cons y ys) = false
  entries_eq (cons x xs) nil = false
  entries_eq (cons x xs) (cons y ys) = plist_eq x y && entries_eq xs ys

  -- Every item of the first is an item of the second.
  pub pairs_in : Pairs → Pairs → Bool
  pairs_in end qs = true
  pairs_in (pair k v ps) qs = elim (find_pair k qs) [
    | none ↦ false
    | some w ↦ plist_eq v w && pairs_in ps qs
  ]

-- `{{` or `}}` in the bytes.
unfoldable pub has_marker : Bytes → Bool
has_marker rendered = contains (codes "{{") rendered || contains (codes "}}") rendered

-- `plistlib.loads` and `plistlib.dumps`; `none` is an exception.
module _ (loads : Bytes → Option Plist) (dumps : Plist → Option Bytes) where
  checked_plist : Bytes → Option Bytes
  unfolding has_marker
  checked_plist rendered =
      if has_marker rendered then none else do _ ← loads rendered; some rendered

  unfoldable pub render_plist : Text → Option Bytes → Option Bytes
  unfolding checked_plist
  render_plist home template = do
    raw ← template
    document ← loads raw
    rendered ← dumps (render_value home document)
    checked_plist rendered
