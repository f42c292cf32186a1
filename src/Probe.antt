-- ===== src/Probe.antt =====
-- The metadata probe (scripts/probe_imcp.py). The processes, the files and the MCP session answer as
-- the Mac says, which is a function of how many questions were asked before: between two questions
-- everything may change.
pub mod Runs
pub mod Output
pub mod Process
pub mod Listing
pub mod Capture
use stavrobot_imcp_plugin.Prelude.{
  ℕ, zero, suc, ◌+◌, Text, codes, text_eq, has_code, Bool, true, false, not, ◌&&◌, Option, none,
  some, List, [], ◌∷◌, ◌++◌, ◌==◌, if◌then◌else◌,
}
use stavrobot_imcp_plugin.Json.{ℤ, pos, negsuc, Value}
use stavrobot_imcp_plugin.Config.{lstrip_space, rstrip_space}
use stavrobot_imcp_plugin.Install.Templates.{Plist, text, dict, find_pair}

-- `_ExecutableIdentity` and `_RunningProcess`.
pub record Identity : Type 0 where
  pub path : Text
  pub device : ℤ
  pub inode : ℤ

pub record RunningProcess : Type 0 where
  pub pid : ℕ
  pub executable : Identity

-- A finished command, unless it could not be run.
pub record Completed : Type 0 where
  pub returncode : ℤ
  pub stdout : Text

-- `os.stat` of a resolved path.
pub record Stat : Type 0 where
  pub regular : Bool
  pub device : ℤ
  pub inode : ℤ

-- The errors by the RuntimeError that stands for them; `list_failed` is any exception of the session,
-- `not_written` one of the output.
pub data ProbeError : Type 0 where
  not_inspected bad_info bad_version bad_executable no_identity : ProbeError
  not_running not_unique other_executable : ProbeError
  app_missing not_opened not_selected_after_launch : ProbeError
  process_changed identity_changed : ProbeError
  list_timed_out list_failed repeated_cursor version_changed not_written : ProbeError

pub data Result (A : Type 0) : Type 0 where
  ok : A → Result A
  error : ProbeError → Result A

-- A tool of a page; `rest` is what the SDK model has besides.
pub record Tool : Type 0 where
  pub name : Value
  pub description : Value
  pub input_schema : Value
  pub rest : Value

pub record Page : Type 0 where
  pub tools : List Tool
  pub next_cursor : Option Text

pub data Fetched : Type 0 where
  page : Page → Fetched
  failed timed_out : Fetched

-- What the probe does to the outside, besides questions.
pub data Action : Type 0 where
  opened_app : Action
  -- `tools/list`; the only request after the handshake.
  listed : Option Text → Action
  -- The tools, the version and the date of the document.
  wrote : List Value → Text → Text → Action

pub record World : Type 0 where
  pub moment : ℕ
  -- Latest first.
  pub actions : List Action

pub record Mac : Type 0 where
  pub pgrep : ℕ → Option Completed
  pub lsof : ℕ → ℕ → Option Completed
  pub resolve : ℕ → Text → Option Text
  pub stat : ℕ → Text → Option Stat
  -- The parsed Info.plist of an app, if there is one.
  pub app_info : ℕ → Text → Option Plist
  pub is_dir : ℕ → Text → Bool
  pub open_app : ℕ → Bool
  -- Entering the session and `initialize`; then one page.
  pub connect : ℕ → Option ProbeError
  pub list_tools : ℕ → Option Text → Fetched
  pub writes : ℕ → Bool

abbrev pub M : Type 0 → Type 0
M A = World → Result A × World

abbrev pub pure : {A : Type 0} → A → M A
pure a w = (ok a, w)

abbrev pub fail : {A : Type 0} → ProbeError → M A
fail e w = (error e, w)

unfoldable pub continue : {A B : Type 0} → Result A → (A → M B) → M B
continue (ok a) f w = f a w
continue (error e) f w = (error e, w)

infixl 5 ◌>>=◌ ◌>>◌
unfoldable pub ◌>>=◌ : {A B : Type 0} → M A → (A → M B) → M B
unfolding continue
◌>>=◌ m f w = let (r, w') = m w in continue r f w'

abbrev pub ◌>>◌ : {B : Type 0} → M (Unit {0}) → M B → M B
m >> k = m >>= λ _. k

-- A question: the next one may get another answer.
unfoldable pub ask : {A : Type 0} → (ℕ → A) → M A
ask f w = (ok (f w.moment), record w { moment = suc w.moment })

unfoldable pub act : Action → M (Unit {0})
act a w = (ok tt, record w { actions = a ∷ w.actions })

abbrev pub require : Bool → ProbeError → M (Unit {0})
require true e = pure tt
require false e = fail e

abbrev pub from_option : {A : Type 0} → ProbeError → Option A → M A
from_option e none = fail e
from_option e (some a) = pure a

unfoldable pub int_eq : ℤ → ℤ → Bool
int_eq (pos a) (pos b) = a == b
int_eq (negsuc a) (negsuc b) = a == b
int_eq _ _ = false

-- `==` of two identities.
unfoldable pub identity_eq : Identity → Identity → Bool
unfolding int_eq
identity_eq a b = text_eq a.path b.path && (int_eq a.device b.device && int_eq a.inode b.inode)

module _ (is_space : ℕ → Bool) where
  unfoldable pub stripped : Text → Text
  stripped s = rstrip_space is_space (lstrip_space is_space s)

  -- `isinstance(value, str) and value and value == value.strip()`.
  unfoldable pub is_trimmed : Text → Bool
  unfolding stripped
  is_trimmed [] = false
  is_trimmed (c ∷ s) = text_eq (c ∷ s) (stripped (c ∷ s))

  version_of : Option Plist → Option Text
  unfolding is_trimmed
  version_of (some (text s)) = if is_trimmed s then some s else none
  version_of _ = none

  -- `Path(executable).name == executable`: one component, and not the current directory.
  unfoldable pub is_file_name : Text → Bool
  is_file_name s = not (has_code b'/' s) && not (text_eq s (codes "."))

  executable_of : Option Plist → Option Text
  unfolding is_trimmed is_file_name
  executable_of (some (text s)) = if is_trimmed s && is_file_name s then some s else none
  executable_of _ = none

  module _ (mac : Mac) where
    info_of : Option Plist → M Plist
    info_of (some (dict ps)) = pure (dict ps)
    info_of _ = fail bad_info

    value_of : Text → Plist → Option Plist
    value_of key (dict ps) = find_pair key ps
    value_of key _ = none

    unfoldable pub read_app_info : Text → M Plist
    unfolding ask info_of
    read_app_info app = do info ← ask (λ n. mac.app_info n app); info_of info

    unfoldable pub read_app_version : Text → M Text
    unfolding read_app_info value_of version_of
    read_app_version app = do
      info ← read_app_info app
      from_option bad_version (version_of (value_of (codes "CFBundleShortVersionString") info))

    unfoldable pub selected_app_executable : Text → M Text
    unfolding read_app_info value_of executable_of
    selected_app_executable app = do
      info ← read_app_info app
      name ← from_option bad_executable (executable_of (value_of (codes "CFBundleExecutable") info))
      pure (app ++ (codes "/Contents/MacOS/" ++ name))

    identity_of : Text → Option Stat → M Identity
    identity_of path none = fail no_identity
    identity_of path (some s) =
        if s.regular
        then pure (record { path = path; device = s.device; inode = s.inode })
        else fail no_identity

    unfoldable pub file_identity : Text → M Identity
    unfolding ask identity_of
    file_identity path = do
      resolved ← ask (λ n. mac.resolve n path)
      canonical ← from_option no_identity resolved
      metadata ← ask (λ n. mac.stat n canonical)
      identity_of canonical metadata
