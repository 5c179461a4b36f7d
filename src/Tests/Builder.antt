-- ===== src/Tests/Builder.antt =====
-- The config of xray for one node, with a profile that fragments and one rule of the operator.
use mathlib.Core.List.{Memᴰ}
use text.Mathlib.Text.{starts_with}
use v2pi.Base.{
  ℕ, ◌≡◌, ◌≢◌, ◌⊎◌, inr, refl, ap, arith, Bool, true, false, String, Option, none, some, List, [],
  ◌∷◌, All, leb, ◌-◌, ◌&&◌, if◌then◌else◌, eq_iff, str_eq, any_of,
}
use v2pi.Base.Int.{ℤ, pos}
use v2pi.Node.{Node, normalize}
use v2pi.Node.Normalize.{normalize-IsCoherent}
use v2pi.XrayConfig.Tuning.{TuningProfile, validate_profile, ascii_number}
use v2pi.XrayConfig.Routing.{
  RoutingRule, Addresses, Field, bare, one_of, in_order, validate_routing, validate_rule,
}
use v2pi.XrayConfig.Routing.Checked.{route}
use v2pi.XrayConfig.Builder.{
  Config, Options, Inbound, tproxy_in, RwInbound, Outbound, doh, proxy, tag_out, doh_on,
  rw_lan_rule, loopback_nets, build_config,
}
use v2pi.XrayConfig.Builder.Proxy.{Built, built, failed, Gateway, ProxyOut}
use v2pi.XrayConfig.Builder.Exposed.{TakesListed, own_nets, build_config-blocks}
use v2pi.XrayConfig.Builder.Served.{Leads, build_config-Leads}
use v2pi.XrayConfig.Builder.Encrypted.{build_config-encrypted}
use v2pi.XrayConfig.Builder.Total.{build_config-total}
use v2pi.Tests.Data.{bare_node}

abbrev pub node : Node
node = normalize (record bare_node { address = "a.example"; uuid = "u" })

-- `int` that reads nothing but ASCII digits.
abbrev pub int_of : Option ℕ → Option ℤ
int_of none = none
int_of (some k) = some (pos k)

abbrev pub gateway : Gateway
gateway = record {
  egress_mark = 255;
  tproxy_port = 12345;
  tproxy_port6 = 12346;
  local_proxy_port = 10808;
  doh_url = "https://1.1.1.1/dns-query";
  int = λ s. int_of (ascii_number s);
}

abbrev pub profile : TuningProfile
profile = record {
  id = 1;
  fingerprint = "chrome";
  frag_enabled = true;
  frag_packets = "tlshello";
  frag_length = "100-200";
  frag_interval = "10-20";
  mux_enabled = true;
  doh_enabled = true;
  doh_url = "";
  quic = "drop";
  noise_enabled = false;
  noises = [];
  xhttp_padding = "";
  xmux_max_concurrency = "";
  xmux_max_connections = "";
  mux_concurrency = "8";
  xudp_proxy_udp443 = "";
  alpn = "";
  tls_min = "";
  tls_max = "";
}

abbrev pub rule : RoutingRule
rule = record {
  position = 0;
  type = "domain";
  value = "ads.example";
  action = "block";
  enabled = true;
  dataset = "";
}

-- The rule is not about addresses, so that nothing is asked of these.
abbrev addresses : Addresses
addresses = record {
  ip_network = λ s. none;
  ip_address = λ s. none;
  digit = λ c. none;
  lower = λ s. s;
}

abbrev pub options : Options
options = record {
  profile = some profile;
  routing = some (rule ∷ [], "proxy");
  tunneled_fetch = true;
  dns_intercept = true;
  ipv6_tproxy = false;
  domain_strategy = "AsIs";
  stats = some 10085;
  profile_explicit = false;
  rw_inbound = none;
}

-- What was built, or an empty config.
abbrev pub config_of : Built Config → Config
config_of (built c) = c
config_of (failed e) = record {
  dns_servers = [];
  dns_hosts = [];
  inbounds = [];
  outbounds = [];
  domain_strategy = "";
  rules = [];
  stats = false;
}

abbrev config : Config
config = config_of (build_config node gateway options)

is_built : build_config node gateway options ≡ built config
unfolding build_config v2pi.XrayConfig.Builder.Proxy.proxy_outbound
    v2pi.XrayConfig.Builder.Proxy.proxy_settings normalize v2pi.Node.known_protocol v2pi.Base.any_of
    v2pi.XrayConfig.Builder.Proxy.security_choices v2pi.Node.safe_security
    v2pi.XrayConfig.Routing.rules_to_xray in_order v2pi.Base.Sort.sort
    v2pi.XrayConfig.Routing.rule_to_field v2pi.XrayConfig.Routing.values_field
is_built = refl

-- The build does not fail on the inbound of the remote clients.
pub is_built_with :
    (rw : Option RwInbound)
    → build_config node gateway (record options { rw_inbound = rw })
      ≡ built (config_of (build_config node gateway (record options { rw_inbound = rw })))
unfolding build_config v2pi.XrayConfig.Builder.Proxy.proxy_outbound
    v2pi.XrayConfig.Builder.Proxy.proxy_settings normalize v2pi.Node.known_protocol v2pi.Base.any_of
    v2pi.XrayConfig.Builder.Proxy.security_choices v2pi.Node.safe_security
    v2pi.XrayConfig.Routing.rules_to_xray in_order v2pi.Base.Sort.sort
    v2pi.XrayConfig.Routing.rule_to_field v2pi.XrayConfig.Routing.values_field
is_built_with rw = refl

passes : validate_routing addresses (rule ∷ []) "proxy" ≡ true
unfolding validate_routing v2pi.Base.any_of validate_rule v2pi.XrayConfig.Routing.split
    v2pi.Base.Text.tokens v2pi.Base.keep
passes = refl

-- A client that comes through the transparent proxy asks for an address of 127.0.0.0/8.
abbrev inside : String → Bool
inside net = str_eq net "127.0.0.0/8"

abbrev takes : Field → Bool
takes f = one_of "tproxy-in" f.inbound_tag && any_of inside f.ip

takes-listed : TakesListed takes inside "tproxy-in"
takes-listed tags nets a b = rw (a, b) refl

own : any_of inside own_nets ≡ true
unfolding any_of
own = refl

abbrev first : Inbound
first = tproxy_in 12345 255

first_there : Memᴰ first config.inbounds
unfolding build_config v2pi.XrayConfig.Builder.Proxy.proxy_outbound
    v2pi.XrayConfig.Builder.Proxy.proxy_settings normalize v2pi.Node.known_protocol any_of
    v2pi.XrayConfig.Builder.Proxy.security_choices v2pi.Node.safe_security
    v2pi.XrayConfig.Routing.rules_to_xray in_order v2pi.Base.Sort.sort
    v2pi.XrayConfig.Routing.rule_to_field v2pi.XrayConfig.Routing.values_field
first_there = Memᴰ.head refl

build_config-blocks_example : route takes config.rules ≡ some "block"
build_config-blocks_example =
    build_config-blocks node gateway options config first takes inside is_built first_there
      (λ e. cc e) takes-listed own

build_config-Leads_example : All (Leads config.outbounds config.stats) config.rules
build_config-Leads_example =
    build_config-Leads node gateway options config addresses passes is_built

build_config-encrypted_example :
    ((true ≡ false)
      ⊎ ((url : String) × ((config.dns_servers ≡ doh url ∷ [])
            × (starts_with url "https://" ≡ true))))
    × ((p : ProxyOut) × ((rest : List Outbound) × ((config.outbounds ≡ proxy p ∷ rest)
            × ((node.protocol ≡ "shadowsocks")
                ⊎ ((p.stream.security ≡ "reality") ⊎ (p.stream.security ≡ "tls")))
            × ((p.stream.dialer_proxy ≡ none)
                ⊎ ((x : Outbound) × (Memᴰ x rest × (p.stream.dialer_proxy ≡ some (tag_out x))))))))
build_config-encrypted_example = build_config-encrypted node gateway options config is_built

reads_digits : (s : String) (k : ℕ) → ascii_number s ≡ some k → gateway.int s ≡ some (pos k)
reads_digits s k h = ap int_of h

vless-ne-shadowsocks : ◌≢◌ {A = String} "vless" "shadowsocks"
vless-ne-shadowsocks = ground (arith, eq_iff "vless" "shadowsocks")

build_config-total_example : (cfg : Config) × (build_config node gateway options ≡ built cfg)
unfolding normalize validate_profile v2pi.Node.known_protocol v2pi.Base.any_of
    v2pi.XrayConfig.Tuning.bounded_number v2pi.Base.Text.pieces ascii_number
build_config-total_example =
    build_config-total node gateway options addresses
      (normalize-IsCoherent (record bare_node { address = "a.example"; uuid = "u" }))
      (λ e. absurd (vless-ne-shadowsocks e)) refl passes refl reads_digits

-- A connection from a client to a site that the operator blocks.
abbrev hits : Field → Bool
hits f = elim f.domain [ [] ↦ false | v ∷ vs ↦ true ]
