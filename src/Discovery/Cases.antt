-- ===== src/Discovery/Cases.antt =====
-- The ways in which a record, a collection and a selection can end (stavrobot_imcp/transport.py).
use stavrobot_imcp_plugin.Prelude.{
  ℕ, ◌≤◌, true, ◌&&◌, [], leb, ◌≡◌, ◌≢◌, ◌⊎◌, inl, inr, refl, ap, arith,
}
use stavrobot_imcp_plugin.Discovery.{
  BonjourService, Record, ignored, invalid, local, Services, Collected, collected, conflict,
  Selection, selected,
}

pub within_ports : (k : ℕ) → (leb 1 k && leb k 65535) ≡ true → (1 ≤ k) × (k ≤ 65535)
within_ports k h = (ground arith, ground arith)

service_in : BonjourService → Record → BonjourService
service_in d (local s) = s
service_in d _ = d

pub local-injective : (a b : BonjourService) → local a ≡ local b → a ≡ b
unfolding service_in
local-injective a b h = ap (service_in a) h

services_in : Collected → Services
services_in (collected services) = services
services_in _ = []

pub collected-injective : (a b : Services) → collected a ≡ collected b → a ≡ b
unfolding services_in
collected-injective a b h = ap services_in h

pub conflict-ne-collected : (services : Services) → conflict ≢ collected services
conflict-ne-collected services h = ground arith

selected_in : BonjourService → Selection → BonjourService
selected_in d (selected s) = s
selected_in d _ = d

pub selected-injective : (a b : BonjourService) → selected a ≡ selected b → a ≡ b
unfolding selected_in
selected-injective a b h = ap (selected_in a) h

pub Record-cases :
    (r : Record) → (r ≡ ignored) ⊎ ((r ≡ invalid) ⊎ ((s : BonjourService) × (r ≡ local s)))
Record-cases ignored = inl refl
Record-cases invalid = inr (inl refl)
Record-cases (local s) = inr (inr (s, refl))
