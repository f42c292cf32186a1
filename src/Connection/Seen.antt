-- ===== src/Connection/Seen.antt =====
-- The names that the listener holds after its notices (stavrobot_imcp/transport.py).
use stavrobot_imcp_plugin.Prelude.{
  Text, Bool, true, false, List, [], ◌∷◌, ◌≡◌, refl, sym, ap, ◌∙◌, inl, inr, Bool-cases, text_eq,
  text_eq_iff, mem_text, if◌then◌else◌,
}
use stavrobot_imcp_plugin.Connection.{Notice, added, updated, removed, add_name, discard, listen}

-- Whether a name is there after the notices, by the last one that is about it.
abbrev pub is_seen : Text → Bool → List Notice → Bool
is_seen name before [] = before
is_seen name before (added n ∷ ns) = is_seen name (if text_eq name n then true else before) ns
is_seen name before (updated n ∷ ns) = is_seen name (if text_eq name n then true else before) ns
is_seen name before (removed n ∷ ns) = is_seen name (if text_eq name n then false else before) ns

mem_text-add_name :
    (name n : Text) (names : List Text)
    → mem_text name (add_name n names) ≡ (if text_eq name n then true else mem_text name names)
unfolding add_name mem_text
mem_text-add_name name n names = elim (Bool-cases (text_eq name n)) [
  | inl e ↦ elim (Bool-cases (mem_text n names)) [
    | inl m ↦ rw (m, e) (ap (λ t. mem_text t names) ((text_eq_iff name n).0 e) ∙ m)
    | inr m ↦ rw (m, e) refl
  ]
  | inr e ↦ elim (Bool-cases (mem_text n names)) [ inl m ↦ rw (m, e) refl | inr m ↦ rw (m, e) refl ]
]

mem_text-discard :
    (name n : Text) (names : List Text)
    → mem_text name (discard n names) ≡ (if text_eq name n then false else mem_text name names)
unfolding discard mem_text
mem_text-discard name n [] = elim (Bool-cases (text_eq name n)) [
  | inl e ↦ rw e refl
  | inr e ↦ rw e refl
]
mem_text-discard name n (m ∷ names) = elim (Bool-cases (text_eq name n)) [
  | inl h ↦ elim (Bool-cases (text_eq n m)) [
    | inl e ↦ rw (h, e, mem_text-discard name n names, h) refl
    | inr e ↦
        let q : text_eq name m ≡ false = ap (λ t. text_eq t m) ((text_eq_iff name n).0 h) ∙ e in
        rw (h, e, q, mem_text-discard name n names, h) refl
  ]
  | inr h ↦ elim (Bool-cases (text_eq n m)) [
    | inl e ↦
        let q : text_eq name m ≡ false = sym (ap (text_eq name) ((text_eq_iff n m).0 e)) ∙ h in
        rw (h, e, q, mem_text-discard name n names, h) refl
    | inr e ↦ rw (h, e, mem_text-discard name n names, h) refl
  ]
]

pub mem_text-listen :
    (name : Text) (notices : List Notice) (names : List Text)
    → mem_text name (listen notices names) ≡ is_seen name (mem_text name names) notices
unfolding listen
mem_text-listen name [] names = refl
mem_text-listen name (added n ∷ ns) names =
    mem_text-listen name ns (add_name n names)
    ∙ ap (λ b. is_seen name b ns) (mem_text-add_name name n names)
mem_text-listen name (updated n ∷ ns) names =
    mem_text-listen name ns (add_name n names)
    ∙ ap (λ b. is_seen name b ns) (mem_text-add_name name n names)
mem_text-listen name (removed n ∷ ns) names =
    mem_text-listen name ns (discard n names)
    ∙ ap (λ b. is_seen name b ns) (mem_text-discard name n names)
