-- ===== src/XrayConfig/Routing.antt =====
-- xray_config/routing.py: the operator's routing rules, their checks, and the rules of xray that they
-- become. Parsing of addresses (the module ipaddress) and the decimal digits of Unicode are parameters.
pub mod Checked
use Prim.Native.Char.{code}
use Prim.Native.String.{◌++◌ as ◌<>◌}
use v2pi.Base.{
  ℕ, ◌+◌, ◌*◌, ◌-◌, Bool, true, false, not, ◌&&◌, ◌||◌, ◌==◌, leb, ltb, String, str_eq, Option,
  none, some, List, [], ◌∷◌, ◌++◌, map, any_of, keep, if◌then◌else◌, length,
}
use v2pi.Base.Text.{tokens, pieces, join}
use v2pi.Base.Sort.{sort}

-- `RoutingRule` of models.py; `dataset` is empty for the stock files.
pub record RoutingRule : Type 0 where
  pub position : ℕ
  pub type : String
  pub value : String
  pub action : String
  pub enabled : Bool
  pub dataset : String

abbrev pub one_of : String → List String → Bool
one_of s ts = any_of (λ t. str_eq s t) ts

abbrev pub rule_types : List String
rule_types = "geoip" ∷ "geosite" ∷ "domain" ∷ "ip" ∷ "port" ∷ "device" ∷ []

abbrev pub actions : List String
actions = "direct" ∷ "proxy" ∷ "block" ∷ []

-- `_split`
unfoldable pub split : String → List String
split value = tokens (λ c. c == b',' || c == 10) value

-- What ipaddress says of a network, and the version of an address; none where it raises.
pub record Net : Type 0 where
  pub is_private : Bool
  pub is_loopback : Bool
  pub is_link_local : Bool

pub record Addresses : Type 0 where
  pub ip_network : String → Option Net
  pub ip_address : String → Option ℕ
  -- The value of a decimal digit (`\d`), by its code point.
  pub digit : ℕ → Option ℕ
  -- `str.lower`
  pub lower : String → String

pub data Problem : Type 0 where
  unknown_type unknown_dataset no_dataset unknown_action empty_value not_an_address not_ipv4
        bad_port bad_ip shadowed :
      Problem

-- `A or B` on optional errors.
abbrev pub or_else : Option Problem → Option Problem → Option Problem
or_else none q = q
or_else (some p) q = some p

-- The first error of a loop over the values.
first_bad : (String → Option Problem) → List String → Option Problem
first_bad check [] = none
first_bad check (v ∷ vs) = or_else (check v) (first_bad check vs)

abbrev pub check : Bool → Problem → Option Problem
check true p = none
check false p = some p

count : String → ℕ
count String.[] = 0
count (String.◌∷◌ c s) = count s + 1

abbrev is_port : ℕ → Bool
is_port n = leb 1 n && leb n 65535

port_bounds : Option ℕ → Option ℕ → Bool
port_bounds (some a) (some b) = is_port a && is_port b && leb a b
port_bounds _ _ = false

check_dataset : RoutingRule → Option Problem
check_dataset r =
    if str_eq r.dataset ""
    then none
    else or_else (check (str_eq r.dataset "ru") unknown_dataset)
        (check (str_eq r.type "geoip" || str_eq r.type "geosite") no_dataset)

abbrev is_empty : List String → Bool
is_empty [] = true
is_empty (v ∷ vs) = false

module _ (ip : Addresses) where
  -- The number that `n` digits at most write; none where a character is no digit.
  digits : ℕ → String → Option ℕ
  digits acc String.[] = some acc
  digits acc (String.◌∷◌ c s) = elim (ip.digit (code c)) [
    | none ↦ none
    | some d ↦ digits (acc * 10 + d) s
  ]

  -- `\d{1,5}`, read by `int`.
  port_number : String → Option ℕ
  unfolding digits count
  port_number s = if leb 1 (count s) && leb (count s) 5 then digits 0 s else none

  port_parts : List String → Bool
  unfolding port_bounds port_number
  port_parts (a ∷ []) = port_bounds (port_number a) (port_number a)
  port_parts (a ∷ b ∷ []) = port_bounds (port_number a) (port_number b)
  port_parts _ = false

  -- One port, or a range of ports from low to high.
  unfoldable pub good_port : String → Bool
  unfolding port_parts
  good_port v = port_parts (pieces (λ c. c == b'-') v)

  -- `_is_private_net`
  unfoldable pub is_private_net : String → Bool
  is_private_net v = elim (ip.ip_network v) [
    | none ↦ false
    | some n ↦ n.is_private || n.is_loopback || n.is_link_local
  ]

  -- `_shadowed_by_private`
  unfoldable pub shadowed_by_private : RoutingRule → List String → Bool
  unfolding is_private_net
  shadowed_by_private r vals =
      if str_eq r.action "direct"
      then false
      else if str_eq r.type "ip"
      then any_of is_private_net vals
      else str_eq r.type "geoip" && any_of (λ v. str_eq (ip.lower v) "private") vals

  check_device : String → Option Problem
  check_device v = elim (ip.ip_address v) [
    | none ↦ some not_an_address
    | some version ↦ check (version == 4) not_ipv4
  ]

  check_ip : String → Option Problem
  check_ip v = elim (ip.ip_network v) [ none ↦ some bad_ip | some _ ↦ none ]

  check_values : String → List String → Option Problem
  unfolding first_bad check_device check_ip good_port
  check_values type vals =
      or_else (if str_eq type "device" then first_bad check_device vals else none) (
        if str_eq type "port"
        then first_bad (λ v. check (good_port v) bad_port) vals
        else if str_eq type "ip"
        then first_bad check_ip vals
        else none)

  -- `validate_rule`
  unfoldable pub validate_rule : RoutingRule → Option Problem
  unfolding check_dataset check_values shadowed_by_private
  validate_rule r = or_else (check (one_of r.type rule_types) unknown_type) (
      or_else (check_dataset r) (
        or_else (check (one_of r.action actions) unknown_action) (
          or_else (check (not (is_empty (split r.value))) empty_value) (
            or_else (check_values r.type (split r.value))
              (check (not (shadowed_by_private r (split r.value))) shadowed)))))

  rules_fit : List RoutingRule → Bool
  rules_fit [] = true
  rules_fit (r ∷ rs) = elim (validate_rule r) [ none ↦ rules_fit rs | some _ ↦ false ]

  -- `validate_routing`, without the text of the error.
  unfoldable pub validate_routing : List RoutingRule → String → Bool
  unfolding rules_fit
  validate_routing rules default_action = one_of default_action actions && rules_fit rules

-- A field rule of xray: what it matches on, and where it sends what matches. An empty list or none is
-- a key that is not there.
pub record Field : Type 0 where
  pub inbound_tag : List String
  pub protocol : List String
  pub source : List String
  pub ip : List String
  pub domain : List String
  pub port : Option String
  pub network : Option String
  pub outbound_tag : String

abbrev pub bare : String → Field
bare tag = record {
  inbound_tag = [];
  protocol = [];
  source = [];
  ip = [];
  domain = [];
  port = none;
  network = none;
  outbound_tag = tag;
}

-- `EXT_FILES[dataset][type]` of geo_data.py; none is the KeyError.
ext_file : String → String → Option String
ext_file dataset type =
    if not (str_eq dataset "ru")
    then none
    else if str_eq type "geoip"
    then some "geoip_ru.dat"
    else if str_eq type "geosite"
    then some "geosite_ru.dat"
    else none

-- `_values_field`
unfoldable pub values_field : RoutingRule → Option (List String)
unfolding ext_file
values_field r =
    if str_eq r.type "geoip" || str_eq r.type "geosite"
    then (if str_eq r.dataset ""
        then some (map (λ v. r.type <> (":" <> v)) (split r.value))
        else elim (ext_file r.dataset r.type) [
          | none ↦ none
          | some file ↦ some (map (λ v. "ext:" <> (file <> (":" <> v))) (split r.value))
        ])
    else some (split r.value)

-- `_rule_to_field`; none is an exception.
unfoldable pub rule_to_field : RoutingRule → Option Field
rule_to_field r =
    if str_eq r.type "device"
    then some (record (bare r.action) { source = split r.value })
    else if str_eq r.type "geoip" || str_eq r.type "ip"
    then elim (values_field r) [ none ↦ none | some vs ↦ some (record (bare r.action) { ip = vs }) ]
    else if str_eq r.type "geosite" || str_eq r.type "domain"
    then elim (values_field r) [
      | none ↦ none
      | some vs ↦ some (record (bare r.action) { domain = vs })
    ]
    else if str_eq r.type "port"
    then some (record (bare r.action) { port = some (join "," (split r.value)) })
    else none

abbrev pub private_rule : Field
private_rule = record (bare "direct") { ip = "geoip:private" ∷ [] }

abbrev pub catch_all : String → Field
catch_all action = record (bare action) { network = some "tcp,udp" }

-- One turn of the loop: a rule that is off is passed over.
cons_field : Bool → Option Field → Option (List Field) → Option (List Field)
cons_field false f rest = rest
cons_field true none rest = none
cons_field true (some f) none = none
cons_field true (some f) (some fs) = some (f ∷ fs)

-- The enabled rules, as they come, then the default.
fields_then : List Field → List RoutingRule → Option (List Field)
unfolding cons_field
fields_then last [] = some last
fields_then last (r ∷ rs) = cons_field r.enabled (rule_to_field r) (fields_then last rs)

-- By `position`, the sort of Python, which keeps the order of equal ones.
unfoldable pub in_order : List RoutingRule → List RoutingRule
in_order rules = sort (λ (a b : RoutingRule). ltb a.position b.position) rules

-- `rules_to_xray`
unfoldable pub rules_to_xray : List RoutingRule → String → Option (List Field)
unfolding fields_then
rules_to_xray rules default_action =
    elim (fields_then (catch_all default_action ∷ []) (in_order rules)) [
      | none ↦ none
      | some fs ↦ some (private_rule ∷ fs)
    ]
