-- ===== src/Connection/Discover.antt =====
-- Where a discovered port comes from (stavrobot_imcp/transport.py).
use mathlib.Core.Path.{subst}
use stavrobot_imcp_plugin.Prelude.{
  ℕ, ◌-◌, ◌<◌, Text, Bool, true, false, Option, none, some, List, [], ◌∷◌, ◌≡◌, refl, sym, inl, inr,
  ◌⊎◌, arith, Bool-cases, leb, mem_text, ◌∙◌,
}
use stavrobot_imcp_plugin.Config.{Setting}
use stavrobot_imcp_plugin.Discovery.{ServiceInfo, select_local_service_port}
use stavrobot_imcp_plugin.Connection.Seen.{is_seen, mem_text-listen}
use stavrobot_imcp_plugin.Connection.{
  Notice, Outcome, ok, value_error, discovery_error, os_error, other_error, cancelled,
  made_zeroconf, made_browser, resolved, History, Network, close_bonjour, info_of, after_info,
  push_info, resolve_all, port_of, selected_port, resolve_observed, torn_down, finish, listen,
  discover_within, discover_validated, discover_local_service_port, validate_timeout,
}

module _ (net : Network) where
  -- Each name was resolved in its turn, before the window was over, to a result that was not missing.
  pub data Resolves (timeout : ℕ) : List Text → List ServiceInfo → History → Type 0 where
    none_left : {h : History} → Resolves timeout [] [] h
    and_then :
        {names : List Text} {infos : List ServiceInfo} {h : History} (name : Text)
        (info : ServiceInfo)
        → net.elapsed h < timeout
        → net.service_info h name (timeout - net.elapsed h) ≡ ok (some info)
        → Resolves timeout names infos (resolved name ∷ h)
        → Resolves timeout (name ∷ names) (info ∷ infos) h

  info_of-ok :
      (r : Outcome (Option ServiceInfo)) (info : ServiceInfo)
      → info_of net r ≡ ok info
      → r ≡ ok (some info)
  unfolding info_of
  info_of-ok (ok (some x)) info h = ground arith
  info_of-ok (ok none) info h = cc
  info_of-ok value_error info h = cc
  info_of-ok discovery_error info h = cc
  info_of-ok os_error info h = cc
  info_of-ok other_error info h = cc
  info_of-ok cancelled info h = cc

  push_info-ok :
      (info : ServiceInfo) (rest : Outcome (List ServiceInfo) × History) (infos : List ServiceInfo)
      → (push_info net info rest).0 ≡ ok infos
      → (tail : List ServiceInfo) × (rest.0 ≡ ok tail) × (infos ≡ info ∷ tail)
  unfolding push_info
  push_info-ok info (ok tail, h) infos e = (tail, refl, cc)
  push_info-ok info (value_error, h) infos e = cc
  push_info-ok info (discovery_error, h) infos e = cc
  push_info-ok info (os_error, h) infos e = cc
  push_info-ok info (other_error, h) infos e = cc
  push_info-ok info (cancelled, h) infos e = cc

  after_info-ok :
      (r : Outcome ServiceInfo) (h : History) (rest : Outcome (List ServiceInfo) × History)
      (infos : List ServiceInfo)
      → (after_info net r h rest).0 ≡ ok infos
      → (info : ServiceInfo) × (tail : List ServiceInfo) × (r ≡ ok info)
        × (rest.0 ≡ ok tail)
        × (infos ≡ info ∷ tail)
  unfolding after_info
  after_info-ok (ok info) h rest infos e =
      let (tail, q, p) = push_info-ok info rest infos e in (info, tail, refl, q, p)
  after_info-ok value_error h rest infos e = cc
  after_info-ok discovery_error h rest infos e = cc
  after_info-ok os_error h rest infos e = cc
  after_info-ok other_error h rest infos e = cc
  after_info-ok cancelled h rest infos e = cc

  resolve_all-Resolves :
      (timeout : ℕ) (names : List Text) (h : History) (infos : List ServiceInfo)
      → (resolve_all net timeout names h).0 ≡ ok infos
      → Resolves timeout names infos h
  unfolding resolve_all
  resolve_all-Resolves timeout [] h infos e =
      let q : ◌≡◌ {A = List ServiceInfo} [] infos = cc in
      subst (λ x. Resolves timeout [] x h) q none_left
  resolve_all-Resolves timeout (name ∷ names) h infos e =
      go (leb timeout (net.elapsed h)) refl e
        (resolve_all-Resolves timeout names (resolved name ∷ h))
    where
      go :
          (late : Bool)
          → leb timeout (net.elapsed h) ≡ late
          → ◌≡◌ {A = Outcome (List ServiceInfo)}
              (let x : Outcome (List ServiceInfo) × History = elim late [
                | true ↦ (discovery_error, h)
                | false ↦
                    after_info net
                      (info_of net (net.service_info h name (timeout - net.elapsed h)))
                      h
                      (resolve_all net timeout names (resolved name ∷ h))
              ] in
                x.0)
              (ok infos)
          → ((tail : List ServiceInfo)
              → (resolve_all net timeout names (resolved name ∷ h)).0 ≡ ok tail
              → Resolves timeout names tail (resolved name ∷ h))
          → Resolves timeout (name ∷ names) infos h
      go true q e' ih = cc
      go false q e' ih =
          let (info, tail, r, rest, p) =
            after_info-ok (info_of net (net.service_info h name (timeout - net.elapsed h))) h
              (resolve_all net timeout names (resolved name ∷ h)) infos e' in
          subst (λ x. Resolves timeout (name ∷ names) x h) (sym p)
            (and_then name info (ground arith)
              (info_of-ok (net.service_info h name (timeout - net.elapsed h)) info r)
              (ih tail rest))

module _ (net : Network) (is_space : ℕ → Bool) (casefold : Text → Text) (hosts : List Text) where
  -- What stands behind a port.
  pub record Discovered (timeout : ℕ) (port : ℕ) : Type 0 where
    pub notices : List Notice
    pub names : List Text
    pub infos : List ServiceInfo
    pub observed : net.observed ≡ some notices
    pub all_seen : (name : Text) → mem_text name names ≡ is_seen name false notices
    pub all_resolved : Resolves net timeout names infos (made_browser ∷ made_zeroconf ∷ [])
    pub selected : select_local_service_port is_space casefold infos hosts ≡ some port

  port_of-ok : (o : Option ℕ) (port : ℕ) → port_of net o ≡ ok port → o ≡ some port
  unfolding port_of
  port_of-ok none port h = cc
  port_of-ok (some p) port h = ground arith

  selected_port-ok :
      (r : Outcome (List ServiceInfo) × History) (port : ℕ)
      → (selected_port net is_space casefold hosts r).0 ≡ ok port
      → (infos : List ServiceInfo) × (r.0 ≡ ok infos)
        × (select_local_service_port is_space casefold infos hosts ≡ some port)
  unfolding selected_port
  selected_port-ok (ok infos, h) port e = (infos, refl, port_of-ok _ port e)
  selected_port-ok (value_error, h) port e = cc
  selected_port-ok (discovery_error, h) port e = cc
  selected_port-ok (os_error, h) port e = cc
  selected_port-ok (other_error, h) port e = cc
  selected_port-ok (cancelled, h) port e = cc

  finish-ok :
      (b z : Bool) (timeout : ℕ) (r : Outcome ℕ × History) (port : ℕ)
      → (finish net is_space casefold hosts b z timeout r).0 ≡ ok port
      → r.0 ≡ ok port
  unfolding finish
  finish-ok b z timeout (r, h) port e = go (close_bonjour net b z timeout h) e
    where
      go :
          (x : Bool × History)
          → (torn_down net is_space casefold hosts r x).0 ≡ ok port
          → r ≡ ok port
      go (true, h') e' = unfold torn_down in cc
      go (false, h') e' = unfold torn_down in e'

  module _
      (all_met : (names : List Text) (name : Text)
        → mem_text name (net.ordered names) ≡ mem_text name names) where
    resolve_observed-Discovered :
        (timeout port : ℕ) (o : Option (List Notice))
        → net.observed ≡ o
        → (resolve_observed net is_space casefold hosts timeout o
            (made_browser ∷ made_zeroconf ∷ [])).0
          ≡ ok port
        → Discovered timeout port
    unfolding resolve_observed mem_text
    resolve_observed-Discovered timeout port none q e = cc
    resolve_observed-Discovered timeout port (some notices) q e =
        let start = made_browser ∷ made_zeroconf ∷ [] in
        let names = net.ordered (listen notices []) in
        let (infos, r, s) = selected_port-ok (resolve_all net timeout names start) port e in
        record {
          notices = notices;
          names = names;
          infos = infos;
          observed = q;
          all_seen = λ name. all_met (listen notices []) name ∙ mem_text-listen name notices [];
          all_resolved = resolve_all-Resolves net timeout names start infos r;
          selected = s;
        }

    discover_within-Discovered :
        (timeout cleanup port : ℕ)
        → (discover_within net is_space casefold hosts timeout cleanup).0 ≡ ok port
        → Discovered timeout port
    unfolding discover_within
    discover_within-Discovered timeout cleanup port e = elim (Bool-cases net.makes_zeroconf) [
      | inr broken ↦ absurd (failed false false cleanup [] port (rw (broken, discover_within) at e))
      | inl zeroconf ↦
          with_zeroconf timeout cleanup port (Bool-cases net.makes_browser)
            (rw (zeroconf, discover_within) at e)
    ]
      where
        failed :
            (b z : Bool) (t : ℕ) (h : History) (port : ℕ)
            → (finish net is_space casefold hosts b z t (other_error, h)).0 ≡ ok port
            → ⊥
        failed b z t h port e' = cc (finish-ok b z t (other_error, h) port e')

        with_zeroconf :
            (timeout cleanup port : ℕ)
            → ((net.makes_browser ≡ true) ⊎ (net.makes_browser ≡ false))
            → ◌≡◌ {A = Outcome ℕ}
                (let x : Outcome ℕ × History = elim net.makes_browser [
                  | false ↦
                      finish net is_space casefold hosts false true cleanup
                        (other_error, made_zeroconf ∷ [])
                  | true ↦ finish net is_space casefold hosts true true cleanup (
                      resolve_observed net is_space casefold hosts timeout net.observed
                        (made_browser ∷ made_zeroconf ∷ []))
                ] in
                  x.0)
                (ok port)
            → Discovered timeout port
        with_zeroconf timeout cleanup port (inl browser) e' =
            resolve_observed-Discovered timeout port net.observed refl
              (finish-ok true true cleanup _ port (rw browser at e'))
        with_zeroconf timeout cleanup port (inr broken) e' =
            absurd (failed false true cleanup (made_zeroconf ∷ []) port (rw broken at e'))

    discover_validated-Discovered :
        (timeout cleanup : Option ℕ) (port : ℕ)
        → (discover_validated net is_space casefold hosts timeout cleanup).0 ≡ ok port
        → (t : ℕ) × (timeout ≡ some t) × Discovered t port
    unfolding discover_validated
    discover_validated-Discovered (some t) (some c) port e =
        (t, refl, discover_within-Discovered t c port e)
    discover_validated-Discovered (some t) none port e = cc
    discover_validated-Discovered none c port e = cc

    -- If the loop over the set of names meets each of them and no other, then a discovery that returns a
    -- port has resolved exactly the services of which the last notice was that they were added or
    -- updated, each before the resolution window was over, and selected the port from all of the
    -- results.
    pub discover_local_service_port-Discovered :
        (ticks : ℕ) (timeout close_timeout : Setting) (port : ℕ)
        → (discover_local_service_port net is_space casefold hosts ticks timeout close_timeout).0
          ≡ ok port
        → (t : ℕ) × (validate_timeout ticks timeout ≡ some t) × Discovered t port
    unfolding discover_local_service_port
    discover_local_service_port-Discovered ticks timeout close_timeout port e =
        discover_validated-Discovered (validate_timeout ticks timeout)
          (validate_timeout ticks close_timeout) port e
