-- ===== src/Config/Allowlist.antt =====
-- The entries of an allowlist (`_allowlist_entries`, bridge/server.py).
use stavrobot_imcp_plugin.Prelude.{
  Text, codes, text_eq, text_eq_iff, text_eq_refl, mem_text, true, some, List, [], ◌∷◌, All,
  if◌then◌else◌, ◌≡◌, ◌⊎◌, refl, arith, Bool-cases, Option-cases, inl, inr,
}
use mathlib.Core.Path.{subst}
use mathlib.Core.Option.{some-injective, none-ne-some}
use stavrobot_imcp_plugin.Json.{
  Value, null, bool, int, float, not_finite, str, arr, obj, model, other, Items, nil, cons,
}
use stavrobot_imcp_plugin.Bridge.Responses.{Validated, valid, invalid, validate_tool_name}
use stavrobot_imcp_plugin.Bridge.Responses.Names.{IsToolName, validate_tool_name_lem}
use stavrobot_imcp_plugin.Config.{valid_name, is_entry, collect, configured, allowlist_entries}

-- The wildcard, or a name that a tool can have.
pub IsAllowed : Text → Type 0
IsAllowed s = (s ≡ codes "*") ⊎ IsToolName s

-- Every value is a string that is kept.
pub IsKept : List Text → Items → Type 0
IsKept entries nil = Unit
IsKept entries (cons (str s) xs) = (mem_text s entries ≡ true) × IsKept entries xs
IsKept entries (cons v xs) = ⊥

valid_name_lem :
    (codec_message : Text → Text) (v : Validated)
    → valid_name codec_message v ≡ true
    → (name : Text) × (v ≡ valid name)
unfolding valid_name
valid_name_lem codec_message (valid name) h = (name, refl)
valid_name_lem codec_message (invalid message) h = ground arith

is_entry_lem :
    (codec_message : Text → Text) (s : Text) → is_entry codec_message s ≡ true → IsAllowed s
unfolding is_entry IsAllowed
is_entry_lem codec_message [] h = ground arith
is_entry_lem codec_message (c ∷ s) h = elim (Bool-cases (text_eq (c ∷ s) (codes "*"))) [
  | inl e ↦ inl ((text_eq_iff (c ∷ s) (codes "*")).0 e)
  | inr e ↦
      let (name, k) =
        valid_name_lem codec_message (validate_tool_name codec_message (some (str (c ∷ s))))
          (rw (is_entry, e) at h) in
      inr (validate_tool_name_lem codec_message (c ∷ s) name k)
]

-- What one round keeps.
abbrev add : Text → List Text → List Text
add s entries = if mem_text s entries then entries else s ∷ entries

mem_text-add_self : (s : Text) (entries : List Text) → mem_text s (add s entries) ≡ true
unfolding mem_text
mem_text-add_self s entries = elim (Bool-cases (mem_text s entries)) [
  | inl e ↦ rw (e, e) refl
  | inr e ↦ rw (e, text_eq_refl s) refl
]

mem_text-add :
    (s t : Text) (entries : List Text)
    → mem_text t entries ≡ true
    → mem_text t (add s entries) ≡ true
unfolding mem_text
mem_text-add s t entries h = ground arith

All-add :
    (s : Text) (entries : List Text)
    → IsAllowed s
    → All IsAllowed entries
    → All IsAllowed (add s entries)
All-add s entries h k = elim (Bool-cases (mem_text s entries)) [
  | inl e ↦ rw e k
  | inr e ↦ rw e (h, k)
]

record Collects (xs : Items) (entries out : List Text) : Type 0 where
  kept : (s : Text) → mem_text s entries ≡ true → mem_text s out ≡ true
  listed : IsKept out xs
  allowed : All IsAllowed out

collect_lem :
    (codec_message : Text → Text) (xs : Items) (entries out : List Text)
    → collect codec_message xs entries ≡ some out
    → All IsAllowed entries
    → Collects xs entries out
unfolding collect IsKept
collect_lem codec_message nil entries out h k =
    let same : entries ≡ out = some-injective entries out h in
    record {
      kept = λ s e. subst (λ x. mem_text s x ≡ true) same e;
      listed = tt;
      allowed = subst (All IsAllowed) same k;
    }
collect_lem codec_message (cons (str s) xs) entries out h k =
    elim (Bool-cases (is_entry codec_message s)) [
      | inr e ↦ absurd (none-ne-some out (rw (collect, e) at h))
      | inl e ↦
          let rest : Collects xs (add s entries) out =
            collect_lem codec_message xs (add s entries) out (rw (collect, e) at h)
              (All-add s entries (is_entry_lem codec_message s e) k) in
          record {
            kept = λ t m. rest.kept t (mem_text-add s t entries m);
            listed = (rest.kept s (mem_text-add_self s entries), rest.listed);
            allowed = rest.allowed;
          }
    ]
collect_lem codec_message (cons null xs) entries out h k = absurd (none-ne-some out h)
collect_lem codec_message (cons (bool b) xs) entries out h k = absurd (none-ne-some out h)
collect_lem codec_message (cons (int i) xs) entries out h k = absurd (none-ne-some out h)
collect_lem codec_message (cons (float t) xs) entries out h k = absurd (none-ne-some out h)
collect_lem codec_message (cons not_finite xs) entries out h k = absurd (none-ne-some out h)
collect_lem codec_message (cons (obj fs) xs) entries out h k = absurd (none-ne-some out h)
collect_lem codec_message (cons (arr ys) xs) entries out h k = absurd (none-ne-some out h)
collect_lem codec_message (cons (model m) xs) entries out h k = absurd (none-ne-some out h)
collect_lem codec_message (cons other xs) entries out h k = absurd (none-ne-some out h)

-- Whatever allowlist is accepted: every entry is the wildcard or a name that a tool can have, and the
-- value holds a list of strings, or one string, all of which are entries.
pub allowlist_entries_lem :
    (codec_message : Text → Text) (value : Value) (entries : List Text)
    → allowlist_entries codec_message value ≡ some entries
    → All IsAllowed entries
      × (xs : Items) × (configured codec_message value ≡ some xs)
      × IsKept entries xs
unfolding allowlist_entries
allowlist_entries_lem codec_message value entries h =
    elim (Option-cases (configured codec_message value)) [
      | inl e ↦ absurd (none-ne-some entries (rw (allowlist_entries, e) at h))
      | inr (xs, e) ↦
          let done : Collects xs [] entries =
            collect_lem codec_message xs [] entries (rw (allowlist_entries, e) at h) tt in
          (done.allowed, xs, e, done.listed)
    ]
