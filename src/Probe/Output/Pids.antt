-- ===== src/Probe/Output/Pids.antt =====
-- The process identifiers that are read from `pgrep` (scripts/probe_imcp.py).
use mathlib.Core.Path.{subst}
use stavrobot_imcp_plugin.Prelude.{
  ℕ, zero, suc, ◌<◌, Text, Bool, true, false, Option, none, some, List, [], ◌∷◌, ◌≡◌, ◌≢◌, refl,
  ◌⊎◌, inl, inr, arith, All, Bool-cases, if◌then◌else◌,
}
use stavrobot_imcp_plugin.Json.{ℤ, pos, negsuc}
use stavrobot_imcp_plugin.Probe.{Completed, int_eq, stripped}
use stavrobot_imcp_plugin.Probe.Output.{
  mem_nat, unique_after, positive, add_pid, read_pids, found_pids, pids_of, split_lines,
}

-- No number stands twice in the list, and none of `seen`.
abbrev pub IsFresh : List ℕ → List ℕ → Type 0
IsFresh seen [] = Unit
IsFresh seen (n ∷ ns) = (mem_nat n seen ≡ false) × IsFresh (n ∷ seen) ns

unique_after-IsFresh : (seen ns : List ℕ) → IsFresh seen (unique_after seen ns)
unfolding unique_after
unique_after-IsFresh seen [] = tt
unique_after-IsFresh seen (n ∷ ns) = elim (Bool-cases (mem_nat n seen)) [
  | inl old ↦ rw (old, unique_after) (unique_after-IsFresh seen ns)
  | inr new ↦ rw (new, unique_after) (new, unique_after-IsFresh (n ∷ seen) ns)
]

unique_after-All : (P : ℕ → Type 0) (seen ns : List ℕ) → All P ns → All P (unique_after seen ns)
unfolding unique_after
unique_after-All P seen [] h = tt
unique_after-All P seen (n ∷ ns) h = elim (Bool-cases (mem_nat n seen)) [
  | inl old ↦ rw (old, unique_after) (unique_after-All P seen ns h.1)
  | inr new ↦ rw (new, unique_after) (h.0, unique_after-All P (n ∷ seen) ns h.1)
]

abbrev IfSome {ℓ} : {A : Type 0} → (A → Type ℓ) → Option A → Type ℓ
IfSome P none = Unit
IfSome P (some a) = P a

positive-IfSome : (i : Option ℤ) → IfSome (λ n. 0 < n) (positive i)
unfolding positive
positive-IfSome none = tt
positive-IfSome (some (pos zero)) = tt
positive-IfSome (some (pos (suc k))) = omega arith
positive-IfSome (some (negsuc k)) = tt

abbrev pub AllPositive : List ℕ → Type 0
AllPositive ns = All (λ n. 0 < n) ns

add_pid-IfSome :
    (n : Option ℕ) (ns : Option (List ℕ))
    → IfSome (λ k. 0 < k) n
    → IfSome AllPositive ns
    → IfSome AllPositive (add_pid n ns)
unfolding add_pid
add_pid-IfSome (some n) (some ns) h k = (h, k)
add_pid-IfSome (some n) none h k = tt
add_pid-IfSome none ns h k = tt

pub int_eq→eq : (a b : ℤ) → int_eq a b ≡ true → a ≡ b
unfolding int_eq
int_eq→eq (pos a) (pos b) h = ground arith
int_eq→eq (pos a) (negsuc b) h = cc
int_eq→eq (negsuc a) (pos b) h = cc
int_eq→eq (negsuc a) (negsuc b) h = ground arith

module _ (is_space : ℕ → Bool) (int10 : Text → Option ℤ) where
  read_pids-IfSome : (lines : List Text) → IfSome AllPositive (read_pids is_space int10 lines)
  unfolding read_pids
  read_pids-IfSome [] = tt
  read_pids-IfSome (line ∷ lines) =
      elim (stripped is_space line)
        as (λ s. IfSome AllPositive (elim s [
          | [] ↦ read_pids is_space int10 lines
          | c ∷ t ↦ add_pid (positive (int10 (c ∷ t))) (read_pids is_space int10 lines)
        ])) [
          | [] ↦ read_pids-IfSome lines
          | c ∷ t ↦
              add_pid-IfSome (positive (int10 (c ∷ t))) (read_pids is_space int10 lines)
                (positive-IfSome (int10 (c ∷ t))) (read_pids-IfSome lines)
        ]

  -- The result of `_running_imcp_pids`.
  abbrev pub ArePids : Option Completed → List ℕ → Type 0
  ArePids answer pids =
      ((pids ≡ [])
        × ((text : Text) × (answer ≡ some (record { returncode = pos 1; stdout = text }))))
      ⊎ ((pids ≢ []) × AllPositive pids × IsFresh [] pids)

  found_pids-ArePids :
      (read : Option (List ℕ)) (pids : List ℕ)
      → IfSome AllPositive read
      → found_pids is_space int10 read ≡ some pids
      → (pids ≢ []) × AllPositive pids × IsFresh [] pids
  unfolding found_pids
  found_pids-ArePids none pids h e = cc
  found_pids-ArePids (some []) pids h e = cc
  found_pids-ArePids (some (n ∷ ns)) pids h e =
      let q : unique_after [] (n ∷ ns) ≡ pids = cc in
      subst (λ ps. (ps ≢ []) × AllPositive ps × IsFresh [] ps) q
        (
          (unfold unique_after in unfold mem_nat in λ none_left. cc),
          unique_after-All (λ k. 0 < k) [] (n ∷ ns) h,
          unique_after-IsFresh [] (n ∷ ns),
        )

  succeeded :
      (b : Bool) (o : Option (List ℕ)) (pids : List ℕ)
      → (if b then o else none) ≡ some pids
      → o ≡ some pids
  succeeded true o pids h = h
  succeeded false o pids h = cc

  -- What the probe reads from an answer of pgrep is no identifier at all, where pgrep exited with
  -- status 1, or at least one, all of them positive and each once.
  pub pids_of-ArePids :
      (answer : Option Completed) (pids : List ℕ)
      → pids_of is_space int10 answer ≡ some pids
      → ArePids answer pids
  unfolding pids_of
  pids_of-ArePids none pids h = cc
  pids_of-ArePids (some result) pids h = elim (Bool-cases (int_eq result.returncode (pos 1))) [
    | inl none_found ↦
        inl
          (ground arith, (result.stdout, rw (int_eq→eq result.returncode (pos 1) none_found) refl))
    | inr other ↦ inr (
        found_pids-ArePids (read_pids is_space int10 (split_lines result.stdout)) pids
          (read_pids-IfSome (split_lines result.stdout))
          (succeeded (int_eq result.returncode (pos 0)) _ pids (rw (other, pids_of) at h)))
  ]
