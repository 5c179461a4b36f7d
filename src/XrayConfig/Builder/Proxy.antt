-- ===== src/XrayConfig/Builder/Proxy.antt =====
-- xray_config/builder.py: the outbound that carries the tunnel.
use v2pi.Base.{
  ℕ, ◌==◌, Bool, not, ◌&&◌, String, str_eq, Option, none, some, List, [], ◌∷◌, if◌then◌else◌,
}
use v2pi.Base.Text.{tokens, strip}
use v2pi.Base.Int.{ℤ}
use v2pi.Node.{Node, text_or}
use v2pi.XrayConfig.Tuning.{TuningProfile}
use v2pi.XrayConfig.Routing.{one_of}

pub data BuildError : Type 0 where
  plaintext_resolver unsupported_cipher unsupported_security bad_concurrency bad_rules : BuildError

-- A ValueError, or another exception, is a failure.
pub data Built (A : Type 0) : Type 0 where
  built : A → Built A
  failed : BuildError → Built A

infixl 5 ◌>>=◌ ◌>>◌
abbrev pub ◌>>=◌ : {A B : Type 0} → Built A → (A → Built B) → Built B
built a >>= f = f a
failed e >>= f = failed e

abbrev pub ◌>>◌ : {A B : Type 0} → Built A → Built B → Built B
m >> k = m >>= λ _. k

-- The settings of config.py that the builder reads; `int` is Python's.
pub record Gateway : Type 0 where
  pub egress_mark : ℕ
  pub tproxy_port : ℕ
  pub tproxy_port6 : ℕ
  pub local_proxy_port : ℕ
  pub doh_url : String
  pub int : String → Option ℤ

-- `SS_METHODS`
abbrev pub ss_methods : List String
ss_methods =
    "aes-128-gcm" ∷ "aes-256-gcm" ∷ "chacha20-poly1305" ∷ "chacha20-ietf-poly1305"
    ∷ "xchacha20-poly1305" ∷ "2022-blake3-aes-128-gcm" ∷ "2022-blake3-aes-256-gcm"
    ∷ "2022-blake3-chacha20-poly1305" ∷ []

-- Address and port of the server, and the credential where the protocol has it; a flow may be empty.
pub data ProxySettings : Type 0 where
  trojan : String → ℕ → String → ProxySettings
  shadowsocks : String → ℕ → String → String → ProxySettings
  vless : String → ℕ → String → String → ProxySettings

-- `proxy_settings`
unfoldable pub proxy_settings : Node → Built ProxySettings
proxy_settings n =
    if str_eq n.protocol "trojan"
    then built (trojan n.address n.port n.password)
    else if str_eq n.protocol "shadowsocks"
    then (if one_of n.method ss_methods
        then built (shadowsocks n.address n.port n.method n.password)
        else failed unsupported_cipher)
    else built (vless n.address n.port n.uuid n.flow)

-- `security_choices`
unfoldable pub security_choices : Node → List String
security_choices n = if str_eq n.protocol "shadowsocks" then "none" ∷ [] else "reality" ∷ "tls" ∷ []

-- `realitySettings` and `tlsSettings`; an empty version is a key that is left out.
pub data Secured : Type 0 where
  plain : Secured
  reality : String → String → String → String → Secured
  tls : String → String → List String → String → String → Secured

-- `xhttpSettings`: path, host, mode, and the padding and the two limits of xmux; an empty text is a key
-- that is left out.
pub record Xhttp : Type 0 where
  pub path : String
  pub host : String
  pub mode : String
  pub padding : String
  pub max_concurrency : String
  pub max_connections : String

pub record Stream : Type 0 where
  pub network : String
  pub security : String
  pub mark : ℕ
  pub dialer_proxy : Option String
  pub secured : Secured
  pub xhttp : Option Xhttp

pub record Mux : Type 0 where
  pub enabled : Bool
  pub concurrency : Option ℤ
  pub xudp_proxy_udp443 : Option String

pub record ProxyOut : Type 0 where
  pub settings : ProxySettings
  pub stream : Stream
  pub mux : Option Mux

-- A field of the profile, the empty text without one.
abbrev of_profile : Option TuningProfile → (TuningProfile → String) → String
of_profile none f = ""
of_profile (some p) f = f p

-- Only a profile that is assigned to the node replaces what came with the node.
fingerprint_of : Node → Option TuningProfile → Bool → String
fingerprint_of n none explicit = n.fingerprint
fingerprint_of n (some p) explicit = if explicit then p.fingerprint else n.fingerprint

alpn_of : Node → Option TuningProfile → Bool → String
alpn_of n none explicit = n.alpn
alpn_of n (some p) explicit = if explicit && not (str_eq p.alpn "") then p.alpn else n.alpn

secured_by : String → Node → Option TuningProfile → Bool → Secured
unfolding fingerprint_of alpn_of
secured_by security n profile explicit =
    let fingerprint = fingerprint_of n profile explicit in
    if str_eq security "reality"
    then reality n.sni fingerprint n.public_key n.short_id
    else if str_eq security "tls"
    then tls n.sni fingerprint (tokens (λ c. c == b',') (alpn_of n profile explicit))
        (of_profile profile (λ p. p.tls_min)) (of_profile profile (λ p. p.tls_max))
    else plain

xhttp_of : Node → Option TuningProfile → Xhttp
xhttp_of n profile = record {
  path = n.path;
  host = n.host;
  mode = n.mode;
  padding = of_profile profile (λ p. p.xhttp_padding);
  max_concurrency = of_profile profile (λ p. p.xmux_max_concurrency);
  max_connections = of_profile profile (λ p. p.xmux_max_connections);
}

-- `mux["concurrency"]`; none where `int` raises.
unfoldable pub concurrency_of : Gateway → TuningProfile → Built (Option ℤ)
concurrency_of g p =
    if p.mux_enabled && not (str_eq (strip p.mux_concurrency) "")
    then elim (g.int p.mux_concurrency) [ none ↦ failed bad_concurrency | some z ↦ built (some z) ]
    else built none

xudp_of : TuningProfile → Option String
xudp_of p =
    if p.mux_enabled && not (str_eq p.xudp_proxy_udp443 "") then some p.xudp_proxy_udp443 else none

mux_with : TuningProfile → Option ℤ → Mux
mux_with p concurrency = record {
  enabled = p.mux_enabled;
  concurrency = concurrency;
  xudp_proxy_udp443 = xudp_of p;
}

-- `mux`: not with Vision, and not with Shadowsocks.
unfoldable pub mux_of : Gateway → Node → Option TuningProfile → Built (Option Mux)
unfolding concurrency_of xudp_of mux_with
mux_of g n none = built none
mux_of g n (some p) =
    if str_eq n.flow "" && not (str_eq n.protocol "shadowsocks")
    then concurrency_of g p >>= (λ c. built (some (mux_with p c)))
    else built none

-- The settings, the stream, and the mux of the outbound `proxy`; `fragmented` says that it dials
-- through the outbound `fragment`.
unfoldable pub proxy_outbound : Node → Gateway → Option TuningProfile → Bool → Bool → Built ProxyOut
unfolding secured_by xhttp_of mux_of
proxy_outbound n g profile explicit fragmented = do
  settings ← proxy_settings n
  let network = text_or n.network "tcp"
  let security = text_or n.security "reality"
  (if one_of security (security_choices n) then built tt else failed unsupported_security)
  mux ← mux_of g n profile
  built (record {
    settings = settings;
    stream = record {
      network = network;
      security = security;
      mark = g.egress_mark;
      dialer_proxy = if fragmented then some "fragment" else none;
      secured = secured_by security n profile explicit;
      xhttp = if str_eq network "xhttp" then some (xhttp_of n profile) else none;
    };
    mux = mux;
  })
