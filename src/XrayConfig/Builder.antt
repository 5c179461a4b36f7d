-- ===== src/XrayConfig/Builder.antt =====
-- xray_config/builder.py: the config of xray for one node. A dict that the code writes key by key is a
-- record or a constructor; a key that is left out is none, an empty list, or a flag.
pub mod Proxy
pub mod Exposed
pub mod Parts
pub mod Served
pub mod Encrypted
pub mod Total
pub mod Order
use Prim.Native.String.{◌++◌ as ◌<>◌, compare}
use Prim.Native.Nat.{Ordering}
use text.Mathlib.Text.{starts_with}
use v2pi.Base.{
  ℕ, zero, suc, ◌==◌, Bool, true, false, not, ◌&&◌, ◌||◌, String, str_eq, Option, none, some, List,
  [], ◌∷◌, ◌++◌, map, if◌then◌else◌, is_some,
}
use v2pi.Base.Sort.{sort}
use v2pi.Node.{Node}
use v2pi.XrayConfig.Tuning.{TuningProfile}
use v2pi.XrayConfig.Routing.{
  RoutingRule, Field, bare, private_rule, catch_all, rules_to_xray, one_of,
}
use v2pi.XrayConfig.Builder.Proxy.{
  BuildError, Built, built, failed, ◌>>=◌, ◌>>◌, plaintext_resolver, bad_rules, Gateway,
  ProxySettings, Stream, Mux, proxy_outbound, ProxyOut,
}

-- `LOOPBACK_NETS`
abbrev pub loopback_nets : List String
loopback_nets =
    "0.0.0.0/8" ∷ "127.0.0.0/8" ∷ "169.254.0.0/16" ∷ "::/128" ∷ "::1/128" ∷ "fe80::/10" ∷ []

pub record Client : Type 0 where
  pub id : String
  pub email : String

-- What the remote-access feature resolves to; `hosts` are names of the LAN with their addresses.
pub record RwInbound : Type 0 where
  pub port : ℕ
  pub clients : List Client
  pub dest : String
  pub server_names : List String
  pub private_key : String
  pub short_ids : List String
  pub hosts : List (String × String)

pub data Inbound : Type 0 where
  tproxy_in : ℕ → ℕ → Inbound
  tproxy_in6 : ℕ → ℕ → Inbound
  api_in : ℕ → Inbound
  sub_fetch : ℕ → Inbound
  -- `rw_inbound_block`
  rw_in : RwInbound → Inbound

abbrev pub tag_in : Inbound → String
tag_in (tproxy_in port mark) = "tproxy-in"
tag_in (tproxy_in6 port mark) = "tproxy-in6"
tag_in (api_in port) = "api"
tag_in (sub_fetch port) = "sub-fetch"
tag_in (rw_in rw) = "rw-in"

-- The address that it listens on; xray listens on all of them where none is given.
abbrev pub listen : Inbound → Option String
listen (tproxy_in port mark) = none
listen (tproxy_in6 port mark) = some "::"
listen (api_in port) = some "127.0.0.1"
listen (sub_fetch port) = some "127.0.0.1"
listen (rw_in rw) = some "0.0.0.0"

pub data Outbound : Type 0 where
  proxy : ProxyOut → Outbound
  direct : ℕ → Outbound
  block : Outbound
  fragment : ℕ → TuningProfile → Outbound
  dns_out : Outbound
  -- `rw_lan_outbound`
  direct_lan : ℕ → Outbound

abbrev pub tag_out : Outbound → String
tag_out (proxy p) = "proxy"
tag_out (direct mark) = "direct"
tag_out block = "block"
tag_out (fragment mark p) = "fragment"
tag_out dns_out = "dns-out"
tag_out (direct_lan mark) = "direct-lan"

pub data DnsServer : Type 0 where
  doh : String → DnsServer
  localhost : DnsServer

-- `stats` says that there are the keys stats, policy and api.
pub record Config : Type 0 where
  pub dns_servers : List DnsServer
  pub dns_hosts : List (String × String)
  pub inbounds : List Inbound
  pub outbounds : List Outbound
  pub domain_strategy : String
  pub rules : List Field
  pub stats : Bool

-- The arguments of `build_config` besides the node and the settings.
pub record Options : Type 0 where
  pub profile : Option TuningProfile
  pub routing : Option (List RoutingRule × String)
  pub tunneled_fetch : Bool
  pub stats : Option ℕ
  pub dns_intercept : Bool
  pub domain_strategy : String
  pub ipv6_tproxy : Bool
  pub profile_explicit : Bool
  pub rw_inbound : Option RwInbound

-- `profile.doh_enabled`, and on without a profile.
pub doh_on : Option TuningProfile → Bool
doh_on none = true
doh_on (some p) = p.doh_enabled

pub doh_url : Option TuningProfile → Gateway → String
doh_url none g = g.doh_url
doh_url (some p) g = if str_eq p.doh_url "" then g.doh_url else p.doh_url

pub resolvers : Gateway → Options → Built (List DnsServer)
unfolding doh_on doh_url
resolvers g o =
    let url = doh_url o.profile g in
    if o.dns_intercept || doh_on o.profile
    then (if starts_with url "https://" then built (doh url ∷ []) else failed plaintext_resolver)
    else built (localhost ∷ [])

-- An optional part of a list.
abbrev pub when {ℓ} : {A : Type ℓ} → Bool → A → List A
when true x = x ∷ []
when false x = []

abbrev pub of_option : {A B : Type 0} → Option A → (A → B) → List B
of_option none f = []
of_option (some a) f = f a ∷ []

unfoldable pub hosts_of : Option RwInbound → List (String × String)
hosts_of none = []
hosts_of (some rw) = rw.hosts

abbrev pub is_nil : {A : Type 0} → List A → Bool
is_nil [] = true
is_nil (x ∷ xs) = false

unfoldable pub inbounds : Gateway → Options → List Inbound
inbounds g o =
    tproxy_in g.tproxy_port g.egress_mark
    ∷ (when o.ipv6_tproxy (tproxy_in6 g.tproxy_port6 g.egress_mark)
        ++ (of_option o.stats (λ port. api_in port)
            ++ (when o.tunneled_fetch (sub_fetch g.local_proxy_port)
                ++ of_option o.rw_inbound (λ rw. rw_in rw))))

-- Whether the proxy dials through the `fragment` outbound.
pub fragmented : Option TuningProfile → Bool
fragmented none = false
fragmented (some p) = p.frag_enabled || (p.noise_enabled && not (is_nil p.noises))

pub fragment_part : Gateway → Option TuningProfile → List Outbound
unfolding fragmented
fragment_part g none = []
fragment_part g (some p) = when (fragmented (some p)) (fragment g.egress_mark p)

pub outbounds : Gateway → Options → ProxyOut → List Outbound
unfolding fragment_part hosts_of
outbounds g o p =
    proxy p
    ∷ (fragment_part g o.profile
        ++ direct g.egress_mark
          ∷ block
          ∷ (when o.dns_intercept dns_out
              ++ when (not (is_nil (hosts_of o.rw_inbound))) (direct_lan g.egress_mark)))

pub base_rules : Option (List RoutingRule × String) → Built (List Field)
base_rules none = built (private_rule ∷ catch_all "proxy" ∷ [])
base_rules (some (rules, default_action)) = elim (rules_to_xray rules default_action) [
  | none ↦ failed bad_rules
  | some fs ↦ built fs
]

only_private : List String → Bool
only_private (v ∷ []) = str_eq v "geoip:private"
only_private _ = false

-- `r.get("ip") == ["geoip:private"] and r.get("outboundTag") == "direct"`
pub is_private : Field → Bool
unfolding only_private
is_private f = only_private f.ip && str_eq f.outbound_tag "direct"

-- Behind the first of the rules that `p` picks out; none where there is no such rule.
pub insert_after : (Field → Bool) → Field → List Field → Option (List Field)
insert_after p f [] = none
insert_after p f (g ∷ gs) =
    let rest = insert_after p f gs in
    if p g then some (g ∷ f ∷ gs) else elim rest [ none ↦ none | some hs ↦ some (g ∷ hs) ]

pub quic_rule : String → Field
quic_rule tag = record (bare tag) { protocol = "quic" ∷ [] }

-- The knob for QUIC, behind the private rule or else in front.
pub with_quic : Option TuningProfile → List Field → List Field
unfolding is_private insert_after quic_rule
with_quic none fs = fs
with_quic (some p) fs =
    let tag = if str_eq p.quic "drop" then "block" else "proxy" in
    if str_eq p.quic "drop" || str_eq p.quic "proxy"
    then elim (insert_after is_private (quic_rule tag) fs) [
      | none ↦ quic_rule tag ∷ fs
      | some gs ↦ gs
    ]
    else fs

pub dns_rule : Bool → Field
dns_rule ipv6 = record (bare "dns-out") {
  inbound_tag = "tproxy-in" ∷ when ipv6 "tproxy-in6";
  port = some "53";
}

pub api_rule : Field
api_rule = record (bare "api") { inbound_tag = "api" ∷ [] }

-- `rw_lan_rule`: the names in order.
unfoldable pub rw_lan_rule : List (String × String) → Field
rw_lan_rule hosts = record (bare "direct-lan") {
  domain =
      map (λ n. "full:" <> n)
        (sort (λ (a b : String). elim (compare a b) [ Ordering.lt ↦ true | _ ↦ false ])
          (map (λ (h : String × String). h.0) hosts));
}

-- `rlist.insert(len(rlist) - 1, f)`
pub before_last : Field → List Field → List Field
before_last f [] = f ∷ []
before_last f (g ∷ []) = f ∷ g ∷ []
before_last f (g ∷ h ∷ hs) = g ∷ before_last f (h ∷ hs)

pub client_facing : Options → List String
client_facing o =
    "tproxy-in" ∷ (when o.ipv6_tproxy "tproxy-in6" ++ when (is_some o.rw_inbound) "rw-in")

pub loopback_rule : Options → Field
unfolding client_facing
loopback_rule o = record (bare "block") { inbound_tag = client_facing o; ip = loopback_nets }

-- What is put around the base rules, in the order of the code.
pub layered : Options → List Field → List Field
unfolding with_quic dns_rule api_rule before_last loopback_rule hosts_of
layered o fs =
    let quic = with_quic o.profile fs in
    let dns = when o.dns_intercept (dns_rule o.ipv6_tproxy) ++ quic in
    let api = when (is_some o.stats) api_rule ++ dns in
    let hosts = hosts_of o.rw_inbound in
    loopback_rule o ∷ (if is_nil hosts then api else before_last (rw_lan_rule hosts) api)

-- The config of the parts.
assemble : Gateway → Options → List DnsServer → ProxyOut → List Field → Config
unfolding inbounds outbounds layered hosts_of
assemble g o dns p fs = record {
  dns_servers = dns;
  dns_hosts = hosts_of o.rw_inbound;
  inbounds = inbounds g o;
  outbounds = outbounds g o p;
  domain_strategy = o.domain_strategy;
  rules = layered o fs;
  stats = is_some o.stats;
}

-- `build_config`
unfoldable pub build_config : Node → Gateway → Options → Built Config
unfolding resolvers base_rules fragmented assemble
build_config n g o = do
  dns ← resolvers g o
  p ← proxy_outbound n g o.profile o.profile_explicit (fragmented o.profile)
  fs ← base_rules o.routing
  built (assemble g o dns p fs)
