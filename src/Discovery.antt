-- ===== src/Discovery.antt =====
-- The choice of the local Bonjour service (stavrobot_imcp/transport.py): `_normalize_hostname`,
-- `_hostname_aliases`, `_service_fields`, `_service_record`, `select_local_service` and
-- `select_local_service_port`. An advertised address is no part of a record, as in the source.
pub mod Selected
pub mod Ports
pub mod Cases
use stavrobot_imcp_plugin.Prelude.{
  ℕ, Text, codes, text_eq, mem_text, Bool, true, false, ◌&&◌, Option, none, some, List, [], ◌∷◌,
  ◌++◌, leb, ◌==◌, if◌then◌else◌,
}
use stavrobot_imcp_plugin.Json.{ℤ, pos, negsuc}
use stavrobot_imcp_plugin.Config.{rstrip, lstrip_space, rstrip_space}

-- A zeroconf result: the fields that are strings, and a port that is an `int` and no `bool`.
pub record ServiceInfo : Type 0 where
  pub name : Option Text
  pub server : Option Text
  pub port : Option ℤ

pub record BonjourService : Type 0 where
  pub name : Text
  pub server : Text
  pub port : ℕ

-- What `_service_record` makes of a result; `invalid` is its InvalidLocalServiceError.
pub data Record : Type 0 where
  ignored invalid : Record
  local : BonjourService → Record

-- `local_services`, in insertion order.
abbrev pub Services : Type 0
Services = List (Text × BonjourService)

unfoldable pub lookup : Text → Services → Option BonjourService
lookup k [] = none
lookup k ((j, s) ∷ services) = if text_eq j k then some s else lookup k services

-- `local_services[key] = record`.
unfoldable pub set_service : Text → BonjourService → Services → Services
set_service k r [] = (k, r) ∷ []
set_service k r ((j, s) ∷ services) =
    if text_eq j k then (j, r) ∷ services else (j, s) ∷ set_service k r services

pub data Collected : Type 0 where
  collected : Services → Collected
  bad_port conflict : Collected

-- `select_local_service`: a service, or one of its three errors.
pub data Selection : Type 0 where
  selected : BonjourService → Selection
  no_local_service ambiguous_service invalid_service : Selection

-- `value.removesuffix(suffix)` where the suffix is there.
remove_suffix : Text → Text → Option Text
remove_suffix suffix [] = if text_eq [] suffix then some [] else none
remove_suffix suffix (c ∷ s) = elim (text_eq (c ∷ s) suffix) [
  | true ↦ some []
  | false ↦ elim (remove_suffix suffix s) [ none ↦ none | some t ↦ some (c ∷ t) ]
]

or_text : Text → Text → Text
or_text [] t = t
or_text (c ∷ s) t = c ∷ s

valid_port : ℤ → Option ℕ
valid_port (pos n) = if leb 1 n && leb n 65535 then some n else none
valid_port (negsuc n) = none

port_of : Option ℤ → Option ℕ
unfolding valid_port
port_of none = none
port_of (some i) = valid_port i

final_selection : Collected → Selection
final_selection (collected []) = no_local_service
final_selection (collected ((k, s) ∷ [])) = selected s
final_selection (collected (x ∷ y ∷ services)) = ambiguous_service
final_selection bad_port = invalid_service
final_selection conflict = ambiguous_service

-- `is_space` is `str.isspace` on a character, and `casefold` is `str.casefold`.
module _ (is_space : ℕ → Bool) (casefold : Text → Text) where
  pub strip : Text → Text
  unfolding lstrip_space rstrip_space
  strip s = rstrip_space is_space (lstrip_space is_space s)

  unfoldable pub normalize_hostname : Text → Text
  unfolding strip rstrip
  normalize_hostname value = casefold (rstrip b'.' (strip value))

  aliases_of : Text → List Text
  unfolding remove_suffix
  aliases_of [] = []
  aliases_of (c ∷ s) = elim (remove_suffix (codes ".local") (c ∷ s)) [
    | none ↦ (c ∷ s) ∷ ((c ∷ s) ++ codes ".local") ∷ []
    | some base ↦ (c ∷ s) ∷ base ∷ []
  ]

  -- The names of this host, from `local_hostnames`.
  unfoldable pub local_names : List Text → List Text
  unfolding aliases_of
  local_names [] = []
  local_names (h ∷ hs) = aliases_of (normalize_hostname h) ++ local_names hs

  -- A string with more than white space.
  non_blank : Option Text → Option Text
  non_blank none = none
  non_blank (some s) = elim (strip s) [ [] ↦ none | c ∷ t ↦ some s ]

  record_of : List Text → Text → Text → Option ℕ → Record
  record_of names name server port =
      if mem_text (normalize_hostname server) names
      then (elim port [
        | none ↦ invalid
        | some n ↦ local (record { name = name; server = server; port = n })
      ])
      else ignored

  unfoldable pub service_record : List Text → ServiceInfo → Record
  unfolding non_blank record_of port_of strip lstrip_space rstrip_space
  service_record names info = elim (non_blank info.name) [
    | none ↦ ignored
    | some name ↦ elim (non_blank info.server) [
      | none ↦ ignored
      | some server ↦ record_of names name server (port_of info.port)
    ]
  ]

  unfoldable pub key_of : BonjourService → Text
  unfolding or_text
  key_of r = or_text (normalize_hostname r.name) r.name

  -- The loop over the results.
  unfoldable pub collect_services : List Text → List ServiceInfo → Services → Collected
  unfolding lookup set_service
  collect_services names [] services = collected services
  collect_services names (info ∷ infos) services = elim (service_record names info) [
    | ignored ↦ collect_services names infos services
    | invalid ↦ bad_port
    | local r ↦ elim (lookup (key_of r) services) [
      | none ↦ collect_services names infos (set_service (key_of r) r services)
      | some previous ↦ elim (previous.port == r.port) [
        | true ↦ collect_services names infos (set_service (key_of r) r services)
        | false ↦ conflict
      ]
    ]
  ]

  unfoldable pub select_local_service : List ServiceInfo → List Text → Selection
  unfolding final_selection collect_services
  select_local_service infos local_hostnames =
      final_selection (collect_services (local_names local_hostnames) infos [])

  unfoldable pub select_local_service_port : List ServiceInfo → List Text → Option ℕ
  unfolding select_local_service
  select_local_service_port infos local_hostnames =
      elim (select_local_service infos local_hostnames) [ selected s ↦ some s.port | _ ↦ none ]
