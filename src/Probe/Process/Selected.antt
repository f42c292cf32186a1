-- ===== src/Probe/Process/Selected.antt =====
-- What the probe knows of a process that it accepts (scripts/probe_imcp.py).
use mathlib.Core.Path.{subst}
use stavrobot_imcp_plugin.Prelude.{
  ℕ, zero, suc, Text, text_eq_iff, Bool, true, false, Option, some, List, [], ◌∷◌, ◌≡◌, refl, sym,
  ap, ◌∙◌, inl, inr, arith, ◌==◌, ==_iff, if◌then◌else◌, Bool-cases,
}
use stavrobot_imcp_plugin.Json.{ℤ}
use stavrobot_imcp_plugin.Probe.{
  Identity, RunningProcess, ProbeError, Result, ok, error, World, Mac, pure, fail, ◌>>=◌, continue,
  ask, require, other_executable, identity_eq, not_inspected, process_changed, identity_changed,
  opened_app, not_opened, app_missing,
}
use stavrobot_imcp_plugin.Probe.Runs.{bind-ok, from_option-ok, require-ok}
use stavrobot_imcp_plugin.Probe.Output.{pids_of}
use stavrobot_imcp_plugin.Probe.Output.Pids.{int_eq→eq}
use stavrobot_imcp_plugin.Probe.Process.{
  running_imcp_pids, read_running_executable, inspect_all, inspect_running_imcp, only_selected,
  selected_identity, require_expected, require_selected_app_process, or_poll, poll_selected,
  open_and_poll, by_running, launch_app_if_needed, verify_capture_process, launch_attempts,
}

pub identity_eq→eq : (a b : Identity) → identity_eq a b ≡ true → a ≡ b
unfolding identity_eq
identity_eq→eq a b h =
    ground
      (arith, text_eq_iff a.path b.path, int_eq→eq a.device b.device, int_eq→eq a.inode b.inode)

module _ (is_space : ℕ → Bool) (int10 int0 int16 : Text → Option ℤ) (mac : Mac) where
  -- In the world `asked` the app's Info.plist and the file system gave `p.executable`, then pgrep
  -- listed `p.pid` alone, and then lsof showed that file for it.
  pub record IsSelected (app : Text) (asked : World) (p : RunningProcess) : Type 0 where
    pub selected : (selected_identity is_space int10 int0 int16 mac app asked).0 ≡ ok p.executable
    pub observed : World
    pub alone : pids_of is_space int10 (mac.pgrep observed.moment) ≡ some (p.pid ∷ [])
    pub inspected : World
    pub shown :
        (read_running_executable is_space int10 int0 int16 mac p.pid inspected).0 ≡ ok p.executable

  accepted :
      (e : ProbeError) (q : RunningProcess) (t : Bool) (w : World) {p : RunningProcess}
      → t ≡ true
      → ((if t then pure q else fail e) w).0 ≡ ok p
      → q ≡ p
  accepted e q true w t h = cc
  accepted e q false w t h = cc

  rejected :
      (e : ProbeError) (q : RunningProcess) (t : Bool) (w : World) {p : RunningProcess}
      → t ≡ false
      → ((if t then pure q else fail e) w).0 ≡ ok p
      → ⊥
  rejected e q true w t h = cc
  rejected e q false w t h = cc

  only_selected-ok :
      (selected : Identity) (ps : List RunningProcess) (w : World) {p : RunningProcess}
      → (only_selected is_space int10 int0 int16 mac selected ps w).0 ≡ ok p
      → (ps ≡ p ∷ []) × (p.executable ≡ selected)
  unfolding only_selected
  only_selected-ok selected [] w h = cc
  only_selected-ok selected (q ∷ []) w h = elim (Bool-cases (identity_eq q.executable selected)) [
    | inl equal ↦
        let q' = accepted other_executable q (identity_eq q.executable selected) w equal h in
        (ap (λ r. r ∷ []) q', ap (λ r. r.executable) (sym q') ∙ identity_eq→eq _ _ equal)
    | inr other ↦ absurd (rejected other_executable q (identity_eq q.executable selected) w other h)
  ]
  only_selected-ok selected (q ∷ r ∷ ps) w h = cc

  inspect_all-cons :
      (n : ℕ) (ns : List ℕ) (w : World) {ps : List RunningProcess}
      → (inspect_all is_space int10 int0 int16 mac (n ∷ ns) w).0 ≡ ok ps
      → (e : Identity) × (rest : List RunningProcess) × (v : World) × ((read_running_executable
            is_space int10 int0 int16 mac n w).0
          ≡ ok e)
        × ((inspect_all is_space int10 int0 int16 mac ns v).0 ≡ ok rest)
        × (record { pid = n; executable = e } ∷ rest ≡ ps)
  unfolding inspect_all
  inspect_all-cons n ns w h =
      let (e, he, h') = bind-ok (read_running_executable is_space int10 int0 int16 mac n) _ w h in
      let v = (read_running_executable is_space int10 int0 int16 mac n w).1 in
      let (rest, hr, h'') = bind-ok (inspect_all is_space int10 int0 int16 mac ns) _ v h' in
      (e, rest, v, he, hr, cc)

  -- A single process comes from a single identifier.
  inspect_all-one :
      (ns : List ℕ) (w : World) {p : RunningProcess}
      → (inspect_all is_space int10 int0 int16 mac ns w).0 ≡ ok (p ∷ [])
      → (ns ≡ p.pid ∷ [])
        × ((read_running_executable is_space int10 int0 int16 mac p.pid w).0 ≡ ok p.executable)
  inspect_all-one [] w h = unfold inspect_all in cc
  inspect_all-one (n ∷ []) w {p} h =
      let (e, rest, v, he, hr, q) = inspect_all-cons n [] w h in
      let q0 : record { pid = n; executable = e } ≡ p = cc in
      subst
        (λ r.
          (◌≡◌ {A = List ℕ} (n ∷ []) (r.pid ∷ []))
          × ((read_running_executable is_space int10 int0 int16 mac r.pid w).0 ≡ ok r.executable))
        q0 (refl, he)
  inspect_all-one (n ∷ k ∷ ns) w h =
      let (e, rest, v, he, hr, q) = inspect_all-cons n (k ∷ ns) w h in
      let (e', rest', v', he', hr', q') = inspect_all-cons k ns v hr in absurd (cc)

  running_imcp_pids-ok :
      (w : World) {pids : List ℕ}
      → (running_imcp_pids is_space int10 int0 int16 mac w).0 ≡ ok pids
      → pids_of is_space int10 (mac.pgrep w.moment) ≡ some pids
  unfolding running_imcp_pids ask ◌>>=◌ continue
  running_imcp_pids-ok w h =
      from_option-ok not_inspected (pids_of is_space int10 (mac.pgrep w.moment))
        (record w { moment = suc w.moment }) h

  require_selected_app_process-IsSelected :
      (app : Text) (w : World) {p : RunningProcess}
      → (require_selected_app_process is_space int10 int0 int16 mac app w).0 ≡ ok p
      → IsSelected app w p
  unfolding require_selected_app_process require_expected inspect_running_imcp
  require_selected_app_process-IsSelected app w {p} h =
      let (selected, hs, h1) =
        bind-ok (selected_identity is_space int10 int0 int16 mac app) _ w h in
      let v = (selected_identity is_space int10 int0 int16 mac app w).1 in
      let (observed, ho, h2) =
        bind-ok (inspect_running_imcp is_space int10 int0 int16 mac) _ v h1 in
      let (pids, hp, h3) = bind-ok (running_imcp_pids is_space int10 int0 int16 mac) _ v ho in
      let u = (running_imcp_pids is_space int10 int0 int16 mac v).1 in
      let (one, same) = only_selected-ok selected observed _ h2 in
      let (alone, shown) = inspect_all-one pids u (h3 ∙ ap ok one) in
      record {
        selected = hs ∙ ap ok (sym same);
        observed = v;
        alone = running_imcp_pids-ok v hp ∙ ap some alone;
        inspected = u;
        shown = shown;
      }

  -- The check after the listing passes only for the process of before.
  pub verify_capture_process-IsSelected :
      (app : Text) (before : RunningProcess) (w : World)
      → (verify_capture_process is_space int10 int0 int16 mac app before w).0 ≡ ok tt
      → IsSelected app w before
  unfolding verify_capture_process
  verify_capture_process-IsSelected app before w h =
      let (after, ha, h1) =
        bind-ok (require_selected_app_process is_space int10 int0 int16 mac app) _ w h in
      let v = (require_selected_app_process is_space int10 int0 int16 mac app w).1 in
      let (_, hp, h2) = bind-ok (require (after.pid == before.pid) process_changed) _ v h1 in
      let pids = (==_iff after.pid before.pid).0 (require-ok _ process_changed v hp) in
      let executables =
        identity_eq→eq after.executable before.executable (require-ok _ identity_changed _ h2) in
      let same : after ≡ before = ground arith in
      subst (IsSelected app w) same (require_selected_app_process-IsSelected app w ha)

  poll_selected-IsSelected :
      (n : ℕ) (app : Text) (w : World) {p : RunningProcess}
      → (poll_selected is_space int10 int0 int16 mac n app w).0 ≡ ok p
      → (v : World) × IsSelected app v p
  unfolding poll_selected
  poll_selected-IsSelected zero app w h = cc
  poll_selected-IsSelected (suc n) app w {p} h =
      go (require_selected_app_process is_space int10 int0 int16 mac app w).0
        (λ q e. require_selected_app_process-IsSelected app w {p = q} e)
        (λ v. poll_selected-IsSelected n app v) h
    where
      go :
          (r : Result RunningProcess)
          → ((q : RunningProcess) → r ≡ ok q → IsSelected app w q)
          → ((v : World)
              → (poll_selected is_space int10 int0 int16 mac n app v).0 ≡ ok p
              → (v : World) × IsSelected app v p)
          → (or_poll is_space int10 int0 int16 mac r
              (poll_selected is_space int10 int0 int16 mac n app)
              (require_selected_app_process is_space int10 int0 int16 mac app w).1).0
            ≡ ok p
          → (v : World) × IsSelected app v p
      go (ok q) first later h' = (w, first p (unfold or_poll in h'))
      go (error e) first later h' = later _ (unfold or_poll in h')

  by_running-IsSelected :
      (app : Text) (ns : List ℕ) (w : World) {p : RunningProcess}
      → (by_running is_space int10 int0 int16 mac app ns w).0 ≡ ok p
      → (v : World) × IsSelected app v p
  unfolding by_running open_and_poll
  by_running-IsSelected app [] w h =
      let opened = record w { moment = suc w.moment; actions = opened_app ∷ w.actions } in
      let (_, _, h1) =
        bind-ok (require (mac.open_app w.moment) not_opened)
          (λ _. poll_selected is_space int10 int0 int16 mac launch_attempts app) opened h in
      poll_selected-IsSelected launch_attempts app _ h1
  by_running-IsSelected app (n ∷ ns) w h = (w, require_selected_app_process-IsSelected app w h)

  -- Whether the app ran before or was opened, the process is the selected one.
  pub launch_app_if_needed-IsSelected :
      (app : Text) (w : World) {p : RunningProcess}
      → (launch_app_if_needed is_space int10 int0 int16 mac app w).0 ≡ ok p
      → (v : World) × IsSelected app v p
  unfolding launch_app_if_needed
  launch_app_if_needed-IsSelected app w h =
      let asked = record w { moment = suc w.moment } in
      let (_, _, h1) =
        bind-ok (require (mac.is_dir w.moment app) app_missing)
          (λ _.
            running_imcp_pids is_space int10 int0 int16 mac
            >>= by_running is_space int10 int0 int16 mac app)
          asked h in
      let (running, _, h2) =
        bind-ok (running_imcp_pids is_space int10 int0 int16 mac)
          (by_running is_space int10 int0 int16 mac app) _ h1 in
      by_running-IsSelected app running _ h2
