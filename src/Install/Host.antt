-- ===== src/Install/Host.antt =====
-- The files, jobs and messages of scripts/install_login_services.py.
use stavrobot_imcp_plugin.Prelude.{
  ℕ, Text, codes, Bool, Option, none, some, List, [], ◌∷◌, ◌++◌, ◌==◌,
}
use stavrobot_imcp_plugin.Json.Dump.{Bytes}
use stavrobot_imcp_plugin.Install.{PrivateFiles}

-- The two LABELS; `label_text` spells them.
pub data Label : Type 0 where
  app bridge : Label

abbrev pub labels : List Label
labels = app ∷ bridge ∷ []

unfoldable pub label_text : Label → Text
label_text app = codes "com.stavrobot.imcp-app"
label_text bridge = codes "com.stavrobot.imcp"

-- What stands at the path of a LaunchAgent; a file that cannot be read is `file none`.
pub data Target : Type 0 where
  missing symlink not_a_file : Target
  file : Option Bytes → Target

abbrev pub Targets : Type 0
Targets = Label → Target

unfoldable pub set_target : Label → Target → Targets → Targets
set_target app t targets app = t
set_target app t targets bridge = targets bridge
set_target bridge t targets app = targets app
set_target bridge t targets bridge = t

-- The jobs that launchd has loaded.
abbrev pub Jobs : Type 0
Jobs = Label → Bool

-- A file that was written, with the umask then, and a `launchctl bootstrap`.
pub data Action : Type 0 where
  wrote : Label → ℕ → Action
  bootstrapped : Label → Action

pub record Host : Type 0 where
  pub targets : Targets
  pub jobs : Jobs
  pub umask : ℕ
  -- Latest first.
  pub actions : List Action

-- What the machine answers. `none` is an exception; a number is an exit or HTTP status.
pub record Machine : Type 0 where
  pub home : Text
  pub files : PrivateFiles
  pub app_installed : Bool
  pub template : Label → Option Bytes
  pub launchctl_print : Jobs → Label → Option ℕ
  pub launchctl_bootstrap : Jobs → Label → Option ℕ × Jobs
  -- What others make of the files between their check and their preparation.
  pub others : Targets → Targets
  -- The two `mkdir` calls succeed.
  pub directories : Bool
  -- Writing fails or not, and what it leaves at the path.
  pub write : Label → Bytes → Bool × Target
  -- The status of the readiness request, counted down from 30.
  pub readiness : ℕ → Option ℕ

pub record Run : Type 0 where
  pub status : ℕ
  pub lines : List Text
  pub host : Host

pub data Match : Type 0 where
  matches differs unreadable : Match

pub data Prepared : Type 0 where
  prepared : Host → Prepared
  template_drift os_error : Host → Prepared

-- The loop over the labels: the jobs that are loaded, when it ends or is stopped.
pub data Bootstrapped : Type 0 where
  bootstrapped_all : Host → Bootstrapped
  stopped : List Label → Host → Bootstrapped

unfoldable pub both : Option Bytes → Option Bytes → Option (Label → Bytes)
both (some a) (some b) = some (λ l. elim l [ app ↦ a | bridge ↦ b ])
both (some a) none = none
both none b = none

unfoldable pub both_active : Option ℕ → Option ℕ → Option (Label → Bool)
both_active (some a) (some b) = some (λ l. elim l [ app ↦ a == 0 | bridge ↦ b == 0 ])
both_active (some a) none = none
both_active none b = none

-- `", ".join(loaded)`.
unfoldable pub joined : List Label → Text
unfolding label_text
joined [] = []
joined (l ∷ []) = label_text l
joined (l ∷ k ∷ ls) = label_text l ++ (codes ", " ++ joined (k ∷ ls))

-- `print(line, file=sys.stderr)` and `return 1`.
unfoldable pub stop_with : List Text → Host → Run
stop_with lines w = record { status = 1; lines = lines; host = w }

unfoldable pub partial_lines : List Label → List Text
unfolding joined
partial_lines [] = []
partial_lines (l ∷ ls) =
    (codes "Possible partial activation: "
      ++ (joined (l ∷ ls) ++ codes " may already be loaded; no rollback was attempted."))
    ∷ []
