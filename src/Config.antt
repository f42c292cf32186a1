-- ===== src/Config.antt =====
-- Trusted startup configuration of bridge/server.py: `_positive_timeout`, `_normalize_path`,
-- `_validate_port`, `load_token`, `_allowlist_entries`, `load_allowlist` and the settings of
-- `BridgeService.__init__`. `none` stands for a BridgeConfigurationError.
pub mod Paths
pub mod Allowlist
use stavrobot_imcp_plugin.Prelude.{
  ℕ, zero, suc, ◌*◌, Text, codes, text_eq, mem_text, has_code, Bool, true, false, ◌||◌, ◌&&◌,
  Option, none, some, List, [], ◌∷◌, length, ltb, leb, ◌==◌, if◌then◌else◌,
}
use stavrobot_imcp_plugin.Json.{ℤ, pos, negsuc, Value, str, arr, obj, Items, nil, cons, get}
use stavrobot_imcp_plugin.Json.Dump.{Bytes, ◌>>=◌}
use stavrobot_imcp_plugin.Bridge.Session.{Config, derived_setup_timeout}
use stavrobot_imcp_plugin.Bridge.Responses.{Validated, valid, invalid, validate_tool_name}

-- A Python number as a timeout: a bool, a count of seconds, a finite float in the model's unit of
-- time, a NaN or an infinity, or no number.
pub data Setting : Type 0 where
  flag : Bool → Setting
  seconds : ℤ → Setting
  finite : ℤ → Setting
  not_finite not_number : Setting

-- `ticks`: units of time in a second.
unfoldable pub positive_timeout : ℕ → Setting → Option ℕ
positive_timeout ticks (seconds (pos (suc n))) = some (suc n * ticks)
positive_timeout ticks (finite (pos (suc n))) = some (suc n)
positive_timeout ticks _ = none

-- `isinstance(port, int) and 0 <= port <= 65535`.
unfoldable pub validate_port : ℤ → Option ℕ
validate_port (pos n) = if leb n 65535 then some n else none
validate_port (negsuc n) = none

-- `value.rstrip("/")`, for the code point of the character.
unfoldable pub rstrip : ℕ → Text → Text
rstrip c [] = []
rstrip c (d ∷ s) = elim (rstrip c s) [ [] ↦ if c == d then [] else d ∷ [] | e ∷ t ↦ d ∷ e ∷ t ]

rooted : Text → Text
rooted [] = b'/' ∷ []
rooted (c ∷ s) = if c == b'/' then c ∷ s else b'/' ∷ c ∷ s

or_root : Text → Text
or_root [] = b'/' ∷ []
or_root (c ∷ s) = c ∷ s

unfoldable pub has_url_separator : Text → Bool
has_url_separator s = has_code b'?' s || (has_code b'#' s || has_code 0 s)

normalize_rooted : Text → Option Text
unfolding or_root
normalize_rooted normalized =
    if has_url_separator normalized
    then none
    else if ltb 256 (length normalized)
    then none
    else some (or_root (rstrip b'/' normalized))

unfoldable pub normalize_path : Text → Option Text
unfolding normalize_rooted rooted
normalize_path [] = none
normalize_path (c ∷ s) = normalize_rooted (rooted (c ∷ s))

-- `text.strip()`; `is_space` is Python's `str.isspace` on one character.
module _ (is_space : ℕ → Bool) where
  unfoldable pub lstrip_space : Text → Text
  lstrip_space [] = []
  lstrip_space (c ∷ s) = if is_space c then lstrip_space s else c ∷ s

  unfoldable pub rstrip_space : Text → Text
  rstrip_space [] = []
  rstrip_space (c ∷ s) = elim (rstrip_space s) [
    | [] ↦ if is_space c then [] else c ∷ []
    | d ∷ t ↦ c ∷ d ∷ t
  ]

  unfoldable pub any_space : Text → Bool
  any_space [] = false
  any_space (c ∷ s) = is_space c || any_space s

  token_of : Text → Option Text
  unfolding any_space
  token_of [] = none
  token_of (c ∷ s) = if any_space (c ∷ s) then none else some (c ∷ s)

  -- `contents` is what the file holds, unless it cannot be read or decoded.
  unfoldable pub load_token : Option Text → Option Text
  unfolding token_of lstrip_space rstrip_space
  load_token none = none
  load_token (some contents) = token_of (rstrip_space (lstrip_space contents))

module _ (codec_message : Text → Text) where
  valid_name : Validated → Bool
  valid_name (valid name) = true
  valid_name (invalid message) = false

  -- One entry: `*`, or a valid tool name.
  unfoldable pub is_entry : Text → Bool
  unfolding valid_name
  is_entry [] = false
  is_entry (c ∷ s) =
      text_eq (c ∷ s) (codes "*")
      || valid_name (validate_tool_name codec_message (some (str (c ∷ s))))

  -- The loop over the values; a set holds an entry once.
  unfoldable pub collect : Items → List Text → Option (List Text)
  collect nil entries = some entries
  collect (cons (str s) xs) entries =
      let rest = collect xs (if mem_text s entries then entries else s ∷ entries) in
      if is_entry s then rest else none
  collect (cons _ xs) entries = none

  values_of : Option Value → Option Items
  values_of (some (str s)) = some (cons (str s) nil)
  values_of (some (arr xs)) = some xs
  values_of _ = none

  first_of_two : Option Value → Option Value → Option Value
  first_of_two none b = b
  first_of_two (some a) b = some a

  pub configured : Value → Option Items
  unfolding values_of first_of_two
  configured (str s) = some (cons (str s) nil)
  configured (arr xs) = some xs
  configured (obj fs) =
      values_of (first_of_two (get (codes "tools") fs) (get (codes "allowlist") fs))
  configured _ = none

  unfoldable pub allowlist_entries : Value → Option (List Text)
  unfolding configured collect
  allowlist_entries value = do xs ← configured value; collect xs []

  -- No path: everything is allowed. `json_loads` decodes the bytes of the file, unless they
  -- cannot be read.
  unfoldable pub load_allowlist :
      Option (Option Bytes) → (Bytes → Option Value) → Option (List Text)
  unfolding allowlist_entries
  load_allowlist none json_loads = some (codes "*" ∷ [])
  load_allowlist (some none) json_loads = none
  load_allowlist (some (some raw)) json_loads = do v ← json_loads raw; allowlist_entries v

  pub all_entries : List Text → Bool
  unfolding is_entry
  all_entries [] = true
  all_entries (s ∷ entries) = is_entry s && all_entries entries

pub given_setup_timeout : ℕ → ℕ → Option Setting → Option ℕ
unfolding positive_timeout
given_setup_timeout ticks derived none = some derived
given_setup_timeout ticks derived (some s) = positive_timeout ticks s

-- The timeouts of `BridgeService.__init__`, given and derived.
unfoldable pub settings :
    ℕ → List Text → Setting → Setting → Setting → Option Setting → Setting → Option Config
unfolding positive_timeout given_setup_timeout
settings ticks allowlist call discovery connect setup close = do
  call_timeout ← positive_timeout ticks call
  discovery_timeout ← positive_timeout ticks discovery
  connect_timeout ← positive_timeout ticks connect
  setup_timeout ←
      given_setup_timeout ticks (derived_setup_timeout discovery_timeout connect_timeout) setup
  close_timeout ← positive_timeout ticks close
  some (record {
    allowlist = allowlist;
    call_timeout = call_timeout;
    discovery_timeout = discovery_timeout;
    connect_timeout = connect_timeout;
    setup_timeout = setup_timeout;
    close_timeout = close_timeout;
  })

module _ (codec_message : Text → Text) where
  -- `BridgeService.__init__` checks the entries of the allowlist again.
  unfoldable pub service_config :
      ℕ → List Text → Setting → Setting → Setting → Option Setting → Setting → Option Config
  unfolding settings all_entries
  service_config ticks allowlist call discovery connect setup close =
      if all_entries codec_message allowlist
      then settings ticks allowlist call discovery connect setup close
      else none
