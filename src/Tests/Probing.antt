-- ===== src/Tests/Probing.antt =====
-- The probe (scripts/probe_imcp.py) on a Mac where the app runs and its server has two pages.
use stavrobot_imcp_plugin.Prelude.{
  ℕ, Text, codes, text_eq, mem_text, Bool, true, false, Option, none, some, List, [], ◌∷◌, ◌++◌,
  ◌≡◌, refl, arith, ◌==◌, if◌then◌else◌,
}
use stavrobot_imcp_plugin.Json.{ℤ, pos, str, null}
use stavrobot_imcp_plugin.Config.{lstrip_space, rstrip_space}
use stavrobot_imcp_plugin.Install.Templates.{text, dict, pair, end}
use stavrobot_imcp_plugin.Probe.{
  Page, page, Fetched, World, Mac, continue, ◌>>=◌, ask, act, stripped,
}
use stavrobot_imcp_plugin.Probe.Output.{pids_of, raw_identity, RawIdentity}
use stavrobot_imcp_plugin.Probe.Output.Pids.{ArePids, pids_of-ArePids}
use stavrobot_imcp_plugin.Probe.Output.Records.{
  OpenFile, file_lines, first_text, raw_identity-file_lines,
}
use stavrobot_imcp_plugin.Probe.Listing.{request_page, page_of}
use stavrobot_imcp_plugin.Probe.Listing.Terminates.{HasCursors}
use stavrobot_imcp_plugin.Probe.Capture.{Arguments, probe_main}
use stavrobot_imcp_plugin.Probe.Capture.Captured.{Captured, probe_main_total}

abbrev is_blank : ℕ → Bool
is_blank c = c == 32

abbrev int10 : Text → Option ℤ
int10 s = some (pos (if text_eq s (codes "2") then 2 else 7))

abbrev joined : List Text → Text
joined [] = []
joined (l ∷ ls) = l ++ (10 ∷ joined ls)

abbrev raw : RawIdentity
raw = record {
  raw_path = codes "/A/Contents/MacOS/iMCP";
  raw_device = codes "2";
  raw_inode = codes "7";
}

abbrev open_files : List OpenFile
open_files =
    record {
      descriptor = codes "cwd";
      kind = codes "DIR";
      raw = record raw { raw_path = codes "/" };
    }
    ∷ record { descriptor = codes "txt"; kind = codes "REG"; raw = raw }
    ∷ []

abbrev first_page : Page
first_page = record {
  tools =
      record { name = str (codes "a"); description = null; input_schema = null; rest = null } ∷ [];
  next_cursor = some (codes "c");
}

abbrev last_page : Page
last_page = record { tools = []; next_cursor = none }

abbrev fetch : Option Text → Fetched
fetch none = page first_page
fetch (some c) = page last_page

abbrev mac : Mac
mac = record {
  pgrep = λ n. some (record { returncode = pos 0; stdout = codes "7" });
  lsof = λ n pid.
      some (record {
        returncode = pos 0;
        stdout = joined ((b'p' ∷ codes "7") ∷ file_lines open_files);
      });
  resolve = λ n path. some path;
  stat = λ n path. some (record { regular = true; device = pos 2; inode = pos 7 });
  app_info = λ n app. some (dict (pair (codes "CFBundleExecutable") (text (codes "iMCP")) end));
  is_dir = λ n app. true;
  open_app = λ n. false;
  connect = λ n. none;
  list_tools = λ n cursor. fetch cursor;
  writes = λ n. true;
}

abbrev arguments : Arguments
arguments = record { app = codes "/A"; app_version = some (codes "1"); capture_date = codes "d" }

abbrev idle_world : World
idle_world = record { moment = 0; actions = [] }

raw_identity-file_lines_example :
    raw_identity ((b'p' ∷ codes "7") ∷ file_lines open_files) ≡ first_text open_files
raw_identity-file_lines_example = raw_identity-file_lines (codes "7") open_files

pids_of-ArePids_example :
    ArePids is_blank int10 (some (record { returncode = pos 0; stdout = codes "7" })) (7 ∷ [])
unfolding text_eq
pids_of-ArePids_example =
    pids_of-ArePids is_blank int10 (some (record { returncode = pos 0; stdout = codes "7" }))
      (7 ∷ [])
      (unfold pids_of in unfold stripped in unfold lstrip_space in unfold rstrip_space in refl)

known_cursors : HasCursors mac (codes "c" ∷ [])
unfolding request_page ◌>>=◌ continue ask act page_of mem_text text_eq
known_cursors none w p c h e = ground arith
known_cursors (some d) w p c h e = ground arith

probe_main_total_example :
    (x : ℕ × World) × (probe_main is_blank int10 int10 int10 mac arguments 2 idle_world ≡ some x)
probe_main_total_example =
    probe_main_total is_blank int10 int10 int10 mac arguments (codes "c" ∷ []) known_cursors 2
      idle_world (omega arith)

abbrev last_world : World
last_world = elim (probe_main is_blank int10 int10 int10 mac arguments 2 idle_world) [
  | none ↦ idle_world
  | some (n, w) ↦ w
]
