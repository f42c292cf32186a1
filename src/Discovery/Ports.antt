-- ===== src/Discovery/Ports.antt =====
-- The services collected so far, by name (stavrobot_imcp/transport.py, `select_local_service`).
use mathlib.Core.Path.{subst}
use mathlib.Core.Option.{some-injective, none-ne-some}
use stavrobot_imcp_plugin.Prelude.{
  ℕ, Text, text_eq, text_eq_iff, text_eq_refl, false, none, some, [], ◌∷◌, ◌≡◌, ◌⊎◌, inl, inr, refl,
  sym, ap, ◌∙◌, Bool-cases,
}
use stavrobot_imcp_plugin.Discovery.{BonjourService, Services, lookup, set_service}

lookup-set_self :
    (k : Text) (r : BonjourService) (services : Services)
    → lookup k (set_service k r services) ≡ some r
unfolding lookup set_service
lookup-set_self k r [] = rw (text_eq_refl k) refl
lookup-set_self k r ((j, s) ∷ services) = elim (Bool-cases (text_eq j k)) [
  | inl e ↦ rw (e, e) refl
  | inr e ↦ rw (e, e) (lookup-set_self k r services)
]

lookup-set_ne :
    (k j : Text) (r : BonjourService) (services : Services)
    → text_eq k j ≡ false
    → lookup j (set_service k r services) ≡ lookup j services
unfolding lookup set_service
lookup-set_ne k j r [] ne = rw ne refl
lookup-set_ne k j r ((i, s) ∷ services) ne = elim (Bool-cases (text_eq i k)) [
  | inl e ↦ rw (e, subst (λ t. text_eq t j ≡ false) (sym ((text_eq_iff i k).0 e)) ne) refl
  | inr e ↦ elim (Bool-cases (text_eq i j)) [
    | inl t ↦ rw (e, t) refl
    | inr t ↦ rw (e, t) (lookup-set_ne k j r services ne)
  ]
]

-- `port` is the port kept under `key`.
abbrev pub Keeps : Services → Text → ℕ → Type 0
Keeps services key port = (q : BonjourService) × (lookup key services ≡ some q) × (q.port ≡ port)

same_port :
    (k : Text) (r q : BonjourService) (services : Services) (port : ℕ)
    → ((lookup k services ≡ none) ⊎ Keeps services k r.port)
    → lookup k services ≡ some q
    → q.port ≡ port
    → r.port ≡ port
same_port k r q services port (inl n) found p = absurd (none-ne-some q (sym n ∙ found))
same_port k r q services port (inr (q', e', p')) found p =
    sym p' ∙ (ap (λ s. s.port) (some-injective q' q (sym e' ∙ found)) ∙ p)

pub Keeps-set_service :
    (k : Text) (r : BonjourService) (services : Services)
    → Keeps (set_service k r services) k r.port
Keeps-set_service k r services = (r, lookup-set_self k r services, refl)

-- A new record under a key that is free or has the same port loses no port.
pub set_service-Keeps :
    (k j : Text) (r : BonjourService) (services : Services) (port : ℕ)
    → ((lookup k services ≡ none) ⊎ Keeps services k r.port)
    → Keeps services j port
    → Keeps (set_service k r services) j port
set_service-Keeps k j r services port free (q, e, p) = elim (Bool-cases (text_eq k j)) [
  | inr ne ↦ (q, lookup-set_ne k j r services ne ∙ e, p)
  | inl same ↦
      let kj : k ≡ j = (text_eq_iff k j).0 same in
      let found : lookup k services ≡ some q = ap (λ t. lookup t services) kj ∙ e in
      (
        r,
        ap (λ t. lookup t (set_service k r services)) (sym kj) ∙ lookup-set_self k r services,
        same_port k r q services port free found p,
      )
]
