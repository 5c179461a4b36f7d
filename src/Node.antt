-- ===== src/Node.antt =====
-- backend/pi_gw_panel/models.py: the proxy node, and the rule that keeps its transport fields coherent.
pub mod Normalize
use v2pi.Base.{ℕ, String, str_eq, Bool, true, false, not, ◌&&◌, ◌||◌, Option, none, if◌then◌else◌}

-- A row of the nodes table. `id` and the two foreign keys are absent on a row not yet stored.
pub record Node : Type 0 where
  pub id : Option ℕ
  pub name : String
  pub address : String
  pub port : ℕ
  pub uuid : String
  pub protocol : String
  pub password : String
  pub method : String
  pub transport : String
  pub sni : String
  pub public_key : String
  pub short_id : String
  pub fingerprint : String
  pub flow : String
  pub network : String
  pub security : String
  pub path : String
  pub host : String
  pub mode : String
  pub alpn : String
  pub note : String
  pub subscription_id : Option ℕ
  pub stale : Bool
  pub tuning_profile_id : Option ℕ
  pub position : ℕ

-- `x in PROTOCOLS`.
abbrev pub is_protocol : String → Bool
is_protocol p = str_eq p "vless" || str_eq p "trojan" || str_eq p "shadowsocks"

abbrev pub default_ss_method : String
default_ss_method = "aes-128-gcm"

-- `a or b` on texts: the empty text counts as false.
abbrev pub text_or : String → String → String
text_or a b = if str_eq a "" then b else a

-- An unknown protocol becomes VLESS.
unfoldable pub known_protocol : String → String
known_protocol p = if is_protocol p then p else "vless"

-- Only reality and tls are honoured, and reality wants a public key.
unfoldable pub safe_security : String → String → String
safe_security security public_key =
    let keyless = str_eq public_key "" in
    let honoured = str_eq security "reality" || str_eq security "tls" in
    let chosen = if honoured then security else (if keyless then "tls" else "reality") in
    if str_eq chosen "reality" && keyless then "tls" else chosen

secured : Node → Node
secured n = record n { security = safe_security n.security n.public_key }

-- Neither Trojan nor Shadowsocks takes a Vision flow or XHTTP.
plain_tcp : Node → Node
plain_tcp n = record n {
  transport = "vision";
  network = "tcp";
  flow = "";
  path = "";
  host = "";
  mode = "";
}

shadowsocks : Node → Node
shadowsocks n = record n { security = "none"; method = text_or n.method default_ss_method }

xhttp : Node → Node
xhttp n = record n { network = "xhttp"; flow = "" }

vision : Node → Node
vision n = record n { network = "tcp"; flow = text_or n.flow "xtls-rprx-vision" }

-- The branches on the protocol, once it is known.
normalize_as : String → Node → Node
unfolding secured plain_tcp shadowsocks xhttp vision
normalize_as protocol n =
    if not (str_eq protocol "vless")
    then (if str_eq protocol "shadowsocks"
        then shadowsocks (plain_tcp n)
        else secured (plain_tcp n))
    else if str_eq n.transport "xhttp"
    then secured (xhttp n)
    else secured (vision n)

unfoldable pub normalize : Node → Node
unfolding normalize_as
normalize n =
    let protocol = known_protocol n.protocol in
    normalize_as protocol (record n { protocol = protocol })
