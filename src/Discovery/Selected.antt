-- ===== src/Discovery/Selected.antt =====
-- The local service that `select_local_service` picks (stavrobot_imcp/transport.py).
use mathlib.Core.Path.{subst}
use mathlib.Core.Option.{some-injective, none-ne-some}
use stavrobot_imcp_plugin.Prelude.{
  ℕ, ◌≤◌, Text, text_eq, text_eq_iff, mem_text, Bool, true, ◌&&◌, Option, none, some, List, [], ◌∷◌,
  leb, ◌==◌, ◌≡◌, ◌⊎◌, inl, inr, refl, sym, ap, ◌∙◌, All, arith, Bool-cases, Option-cases, ==_iff,
}
use stavrobot_imcp_plugin.Json.{ℤ, pos, negsuc}
use stavrobot_imcp_plugin.Discovery.{
  ServiceInfo, BonjourService, ignored, invalid, local, Services, lookup, set_service, Collected,
  collected, bad_port, conflict, selected, valid_port, port_of, final_selection, normalize_hostname,
  non_blank, local_names, record_of, service_record, key_of, collect_services, select_local_service,
}
use stavrobot_imcp_plugin.Discovery.Ports.{Keeps, Keeps-set_service, set_service-Keeps}
use stavrobot_imcp_plugin.Discovery.Cases.{
  within_ports, local-injective, collected-injective, conflict-ne-collected, selected-injective,
  Record-cases,
}

module _ (is_space : ℕ → Bool) (casefold : Text → Text) (names : List Text) where
  -- A result that is no local service, or one whose port is kept under its key.
  Covers : Services → ServiceInfo → Type 0
  Covers services info =
      (service_record is_space casefold names info ≡ ignored)
      ⊎ ((r : BonjourService) × (service_record is_space casefold names info ≡ local r)
          × Keeps services (key_of is_space casefold r) r.port)

  -- The entry is a local service with a valid port, under its own key.
  IsEntry : Text × BonjourService → Type 0
  IsEntry (k, s) =
      (k ≡ key_of is_space casefold s)
      × (1 ≤ s.port)
      × (s.port ≤ 65535)
      × (mem_text (normalize_hostname is_space casefold s.server) names ≡ true)

  record Collects (services out : Services) (infos : List ServiceInfo) : Type 0 where
    kept : (key : Text) (port : ℕ) → Keeps services key port → Keeps out key port
    covers : All (Covers out) infos
    entries : All IsEntry out

  port_of_lem : (port : Option ℤ) (n : ℕ) → port_of port ≡ some n → (1 ≤ n) × (n ≤ 65535)
  unfolding port_of valid_port
  port_of_lem none n h = ground arith
  port_of_lem (some (negsuc k)) n h = ground arith
  port_of_lem (some (pos k)) n h = elim (Bool-cases (leb 1 k && leb k 65535)) [
    | inl e ↦
        subst (λ m. (1 ≤ m) × (m ≤ 65535)) (some-injective k n (rw (valid_port, e) at h))
          (within_ports k e)
    | inr e ↦ absurd (none-ne-some n (rw (valid_port, e) at h))
  ]

  named_lem :
      (name server : Text) (port : Option ℕ) (r : BonjourService)
      → mem_text (normalize_hostname is_space casefold server) names ≡ true
      → (elim port [
        | none ↦ invalid
        | some n ↦ local (record { name = name; server = server; port = n })
      ])
        ≡ local r
      → (mem_text (normalize_hostname is_space casefold r.server) names ≡ true)
        × (port ≡ some r.port)
  named_lem name server none r e h = ground arith
  named_lem name server (some n) r e h =
      let same : record { name = name; server = server; port = n } ≡ r = local-injective _ r h in
      (
        subst (λ t. mem_text (normalize_hostname is_space casefold t) names ≡ true)
            (ap (λ x. x.server) same) e,
        ap (λ x. some x.port) same,
      )

  record_of_lem :
      (name server : Text) (port : Option ℕ) (r : BonjourService)
      → record_of is_space casefold names name server port ≡ local r
      → (mem_text (normalize_hostname is_space casefold r.server) names ≡ true)
        × (port ≡ some r.port)
  unfolding record_of
  record_of_lem name server port r h =
      elim (Bool-cases (mem_text (normalize_hostname is_space casefold server) names)) [
        | inr e ↦ ground arith
        | inl e ↦ named_lem name server port r e (rw (record_of, e) at h)
      ]

  service_record_lem :
      (info : ServiceInfo) (r : BonjourService)
      → service_record is_space casefold names info ≡ local r
      → IsEntry (key_of is_space casefold r, r)
  unfolding service_record IsEntry
  service_record_lem info r h = elim (Option-cases (non_blank is_space casefold info.name)) [
    | inl e ↦ ground arith
    | inr (name, e) ↦ elim (Option-cases (non_blank is_space casefold info.server)) [
      | inl e' ↦ ground arith
      | inr (server, e') ↦
          let (is_local, port) =
            record_of_lem name server (port_of info.port) r (rw (service_record, e, e') at h) in
          let (low, high) = port_of_lem info.port r.port port in (refl, low, high, is_local)
    ]
  ]

  -- The round of one local record.
  Collects-local :
      (infos : List ServiceInfo) (services out : Services) (info : ServiceInfo) (r : BonjourService)
      → service_record is_space casefold names info ≡ local r
      → ((lookup (key_of is_space casefold r) services ≡ none)
          ⊎ Keeps services (key_of is_space casefold r) r.port)
      → Collects (set_service (key_of is_space casefold r) r services) out infos
      → Collects services out (info ∷ infos)
  unfolding Covers
  Collects-local infos services out info r e free h = record {
    kept = λ key port k.
        h.kept key port (set_service-Keeps (key_of is_space casefold r) key r services port free k);
    covers = (
      inr (
        r,
        e,
        h.kept (key_of is_space casefold r) r.port
            (Keeps-set_service (key_of is_space casefold r) r services),
      ),
      h.covers,
    );
    entries = h.entries;
  }

  set_service-IsEntry :
      (k : Text) (r : BonjourService) (services : Services)
      → IsEntry (k, r)
      → All IsEntry services
      → All IsEntry (set_service k r services)
  unfolding set_service IsEntry
  set_service-IsEntry k r [] h entries = (h, tt)
  set_service-IsEntry k r ((j, s) ∷ services) h entries = elim (Bool-cases (text_eq j k)) [
    | inl e ↦ rw e (((text_eq_iff j k).0 e ∙ h.0, h.1, h.2, h.3), entries.1)
    | inr e ↦ rw e (entries.0, set_service-IsEntry k r services h entries.1)
  ]

  collect_lem :
      (infos : List ServiceInfo) (services out : Services)
      → collect_services is_space casefold names infos services ≡ collected out
      → All IsEntry services
      → Collects services out infos
  unfolding collect_services Covers
  collect_lem [] services out h entries =
      let same : services ≡ out = collected-injective services out h in
      record {
        kept = λ key port k. subst (λ x. Keeps x key port) same k;
        covers = tt;
        entries = subst (All IsEntry) same entries;
      }
  collect_lem (info ∷ infos) services out h entries =
      elim (Record-cases (service_record is_space casefold names info)) [
        | inl e ↦
            let rest : Collects services out infos =
              collect_lem infos services out (rw (collect_services, e) at h) entries in
            record { kept = rest.kept; covers = (inl e, rest.covers); entries = rest.entries }
        | inr (inl e) ↦ ground arith
        | inr (inr (r, e)) ↦
            let key : Text = key_of is_space casefold r in
            let entries' : All IsEntry (set_service key r services) =
              set_service-IsEntry key r services (service_record_lem info r e) entries in
            elim (Option-cases (lookup key services)) [
              | inl n ↦ Collects-local infos services out info r e (inl n) (
                  collect_lem infos (set_service key r services) out
                    (rw (collect_services, e, n) at h) entries')
              | inr (q, n) ↦ elim (Bool-cases (q.port == r.port)) [
                | inl same ↦
                    Collects-local infos services out info r e
                      (inr (q, n, (==_iff q.port r.port).0 same))
                      (collect_lem infos (set_service key r services) out
                        (rw (collect_services, e, n, same) at h) entries')
                | inr differ ↦
                    absurd (conflict-ne-collected out (rw (collect_services, e, n, differ) at h))
              ]
            ]
      ]

  -- A result that is no local service, or one with the name and the port of `s`.
  pub AgreesWith : BonjourService → ServiceInfo → Type 0
  AgreesWith s info =
      (service_record is_space casefold names info ≡ ignored)
      ⊎ ((r : BonjourService) × (service_record is_space casefold names info ≡ local r)
          × (key_of is_space casefold r ≡ key_of is_space casefold s)
          × (r.port ≡ s.port))

  single_lem :
      (k : Text) (s : BonjourService) (info : ServiceInfo)
      → IsEntry (k, s)
      → Covers ((k, s) ∷ []) info
      → AgreesWith s info
  unfolding Covers IsEntry AgreesWith lookup
  single_lem k s info entry (inl e) = inl e
  single_lem k s info entry (inr (r, e, (q, found, p))) =
      elim (Bool-cases (text_eq k (key_of is_space casefold r))) [
        | inl t ↦ inr (
          r,
          e,
          sym ((text_eq_iff k (key_of is_space casefold r)).0 t) ∙ entry.0,
          sym p ∙ ap (λ x. x.port) (sym (some-injective s q (rw (lookup, t) at found))),
        )
        | inr t ↦ absurd (none-ne-some q (rw (lookup, t, lookup) at found))
      ]

  All-AgreesWith :
      (k : Text) (s : BonjourService) (infos : List ServiceInfo)
      → IsEntry (k, s)
      → All (Covers ((k, s) ∷ [])) infos
      → All (AgreesWith s) infos
  All-AgreesWith k s [] entry h = tt
  All-AgreesWith k s (info ∷ infos) entry h =
      (single_lem k s info entry h.0, All-AgreesWith k s infos entry h.1)

final_lem :
    (c : Collected) (s : BonjourService)
    → final_selection c ≡ selected s
    → (k : Text) × (c ≡ collected ((k, s) ∷ []))
unfolding final_selection
final_lem (collected []) s h = ground arith
final_lem (collected ((k, t) ∷ [])) s h =
    (k, ap (λ x. collected ((k, x) ∷ [])) (selected-injective t s h))
final_lem (collected (x ∷ y ∷ services)) s h = ground arith
final_lem bad_port s h = ground arith
final_lem conflict s h = ground arith

-- The service that `select_local_service` returns has a host name of this host and a TCP port from 1
-- to 65535, and every result that is a local service has its name, as the source compares names,
-- and its port: where two local services differ, or one has an invalid port, none is returned.
pub select_local_service_lem :
    (is_space : ℕ → Bool) (casefold : Text → Text) (infos : List ServiceInfo)
    (local_hostnames : List Text) (s : BonjourService)
    → select_local_service is_space casefold infos local_hostnames ≡ selected s
    → (mem_text
          (normalize_hostname is_space casefold s.server)
          (local_names is_space casefold local_hostnames)
        ≡ true)
      × (1 ≤ s.port)
      × (s.port ≤ 65535)
      × All (AgreesWith is_space casefold (local_names is_space casefold local_hostnames) s) infos
unfolding select_local_service IsEntry
select_local_service_lem is_space casefold infos local_hostnames s h =
    let names : List Text = local_names is_space casefold local_hostnames in
    let (k, e) = final_lem (collect_services is_space casefold names infos []) s h in
    let done : Collects is_space casefold names [] ((k, s) ∷ []) infos =
      collect_lem is_space casefold names infos [] ((k, s) ∷ []) e tt in
    let entry : IsEntry is_space casefold names (k, s) = done.entries.0 in
    (entry.3, entry.1, entry.2, All-AgreesWith is_space casefold names k s infos entry done.covers)
