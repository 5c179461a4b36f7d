-- ===== src/XrayConfig/Builder/Order.antt =====
-- xray_config/builder.py: which rule of a config decides, layer by layer.
use v2pi.Base.{Bool, ◌&&◌, String, str_eq, Option, none, some, if◌then◌else◌, is_some}
use v2pi.Node.{Node}
use v2pi.XrayConfig.Tuning.{TuningProfile}
use v2pi.XrayConfig.Routing.{Field, private_rule}
use v2pi.XrayConfig.Builder.{Options, quic_rule, loopback_rule, dns_rule, api_rule}

-- What the knob for QUIC decides before `rest`.
abbrev pub quic_layer : Option TuningProfile → (Field → Bool) → Option String → Option String
quic_layer none hits rest = rest
quic_layer (some p) hits rest =
    if str_eq p.quic "drop"
    then (if hits (quic_rule "block") then some "block" else rest)
    else if str_eq p.quic "proxy"
    then (if hits (quic_rule "proxy") then some "proxy" else rest)
    else rest

-- The layers in front of the operator's rules.
abbrev pub layers : Options → (Field → Bool) → Option String → Option String
layers o hits rest =
    if hits (loopback_rule o)
    then some "block"
    else if is_some o.stats && hits api_rule
    then some "api"
    else if o.dns_intercept && hits (dns_rule o.ipv6_tproxy)
    then some "dns-out"
    else if hits private_rule
    then some "direct"
    else quic_layer o.profile hits rest
