-- ===== src/Connection/Teardown.antt =====
-- What was made for a discovery is closed after it, on every path (stavrobot_imcp/transport.py).
use stavrobot_imcp_plugin.Prelude.{
  ℕ, suc, ◌-◌, ◌≤◌, Text, Bool, true, false, Option, none, some, List, [], ◌∷◌, ◌≡◌, refl, ◌∙◌, inl,
  inr, Bool-cases, leb, if◌then◌else◌,
}
use stavrobot_imcp_plugin.Discovery.{ServiceInfo}
use stavrobot_imcp_plugin.Connection.{
  Notice, Outcome, ok, value_error, discovery_error, os_error, other_error, cancelled, Event,
  made_zeroconf, made_browser, resolved, closed_browser, closed_zeroconf, History, Network,
  close_bonjour, info_of, after_info, listen, push_info, resolve_all, selected_port,
  resolve_observed, torn_down, finish,
}

-- The events of a kind.
unfoldable pub count : (Event → Bool) → History → ℕ
count P [] = 0
count P (e ∷ h) = if P e then suc (count P h) else count P h

abbrev pub is_made_zeroconf : Event → Bool
is_made_zeroconf made_zeroconf = true
is_made_zeroconf _ = false

abbrev pub is_made_browser : Event → Bool
is_made_browser made_browser = true
is_made_browser _ = false

abbrev pub is_closed_zeroconf : Event → Bool
is_closed_zeroconf closed_zeroconf = true
is_closed_zeroconf _ = false

abbrev pub is_closed_browser : Event → Bool
is_closed_browser closed_browser = true
is_closed_browser _ = false

module _ (net : Network) (P : Event → Bool)
    (ignores : (name : Text) → P (resolved name) ≡ false) where
  push_info-history :
      (info : ServiceInfo) (r : Outcome (List ServiceInfo) × History)
      → (push_info net info r).1 ≡ r.1
  unfolding push_info
  push_info-history info (ok infos, h) = refl
  push_info-history info (value_error, h) = refl
  push_info-history info (discovery_error, h) = refl
  push_info-history info (os_error, h) = refl
  push_info-history info (other_error, h) = refl
  push_info-history info (cancelled, h) = refl

  after_info-count :
      (r : Outcome ServiceInfo) (name : Text) (h : History)
      (rest : Outcome (List ServiceInfo) × History)
      → count P rest.1 ≡ count P (resolved name ∷ h)
      → count P (after_info net r h rest).1 ≡ count P h
  unfolding after_info count
  after_info-count (ok info) name h rest ih =
      rw (push_info-history info rest) (ih ∙ rw (ignores name) refl)
  after_info-count value_error name h rest ih = refl
  after_info-count discovery_error name h rest ih = refl
  after_info-count os_error name h rest ih = refl
  after_info-count other_error name h rest ih = refl
  after_info-count cancelled name h rest ih = refl

  -- Resolving the names makes and closes nothing.
  resolve_all-count :
      (timeout : ℕ) (names : List Text) (h : History)
      → count P (resolve_all net timeout names h).1 ≡ count P h
  unfolding resolve_all
  resolve_all-count timeout [] h = refl
  resolve_all-count timeout (name ∷ names) h = elim (Bool-cases (leb timeout (net.elapsed h))) [
    | inl late ↦ rw (late, resolve_all) refl
    | inr early ↦
        rw (early, resolve_all)
          (after_info-count (info_of net (net.service_info h name (timeout - net.elapsed h))) name h
            _ (resolve_all-count timeout names (resolved name ∷ h)))
  ]

  module _ (is_space : ℕ → Bool) (casefold : Text → Text) (hosts : List Text) where
    selected_port-history :
        (r : Outcome (List ServiceInfo) × History)
        → (selected_port net is_space casefold hosts r).1 ≡ r.1
    unfolding selected_port
    selected_port-history (ok infos, h) = refl
    selected_port-history (value_error, h) = refl
    selected_port-history (discovery_error, h) = refl
    selected_port-history (os_error, h) = refl
    selected_port-history (other_error, h) = refl
    selected_port-history (cancelled, h) = refl

    pub resolve_observed-count :
        (timeout : ℕ) (o : Option (List Notice)) (h : History)
        → count P (resolve_observed net is_space casefold hosts timeout o h).1 ≡ count P h
    unfolding resolve_observed
    resolve_observed-count timeout none h = refl
    resolve_observed-count timeout (some notices) h =
        rw (selected_port-history (resolve_all net timeout (net.ordered (listen notices [])) h))
          (resolve_all-count timeout (net.ordered (listen notices [])) h)

-- As often made as closed, and at most once.
pub record IsTornDown (h : History) : Type 0 where
  pub zeroconf_closed : count is_closed_zeroconf h ≡ count is_made_zeroconf h
  pub browser_closed : count is_closed_browser h ≡ count is_made_browser h
  pub zeroconf_once : count is_made_zeroconf h ≤ 1
  pub browser_once : count is_made_browser h ≤ 1

module _ (net : Network) (is_space : ℕ → Bool) (casefold : Text → Text) (hosts : List Text) where
  pub finish-history :
      (b z : Bool) (timeout : ℕ) (r : Outcome ℕ × History)
      → (finish net is_space casefold hosts b z timeout r).1 ≡ (close_bonjour net b z timeout r.1).1
  unfolding finish
  finish-history b z timeout (r, h) = go (close_bonjour net b z timeout h)
    where
      go : (x : Bool × History) → (torn_down net is_space casefold hosts r x).1 ≡ x.1
      go (true, h') = unfold torn_down in refl
      go (false, h') = unfold torn_down in refl

  made : History
  made = made_browser ∷ made_zeroconf ∷ []
