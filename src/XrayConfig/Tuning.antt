-- ===== src/XrayConfig/Tuning.antt =====
-- xray_config/tuning.py: the tuning profiles, and the checks of one.
pub mod Checked
use Prim.Native.Char.{code}
use text.Mathlib.Text.{starts_with}
use v2pi.Base.{
  ℕ, ◌+◌, ◌*◌, ◌-◌, ◌==◌, Bool, true, false, not, ◌&&◌, ◌||◌, leb, String, str_eq, Option, none,
  some, List, [], ◌∷◌, any_of, if◌then◌else◌, id_eq,
}
use v2pi.Base.Text.{pieces}
use v2pi.Node.{Node}

-- An entry of `noises`; what is no dict counts as other.
pub data Noise : Type 0 where
  noise : String → String → String → Noise
  other : Noise

-- `TuningProfile` of models.py, without its name.
pub record TuningProfile : Type 0 where
  pub id : ℕ
  pub fingerprint : String
  pub frag_enabled : Bool
  pub frag_packets : String
  pub frag_length : String
  pub frag_interval : String
  pub mux_enabled : Bool
  pub doh_enabled : Bool
  pub doh_url : String
  pub quic : String
  pub noise_enabled : Bool
  pub noises : List Noise
  pub xhttp_padding : String
  pub xmux_max_concurrency : String
  pub xmux_max_connections : String
  pub mux_concurrency : String
  pub xudp_proxy_udp443 : String
  pub alpn : String
  pub tls_min : String
  pub tls_max : String

-- `int` of ASCII digits; none where `isascii` or `isdigit` fails, the empty text included.
digits_from : ℕ → String → Option ℕ
digits_from acc String.[] = some acc
digits_from acc (String.◌∷◌ c s) =
    let rest = digits_from (acc * 10 + (code c - 48)) s in
    if leb 48 (code c) && leb (code c) 57 then rest else none

unfoldable pub ascii_number : String → Option ℕ
unfolding digits_from
ascii_number s = if str_eq s "" then none else digits_from 0 s

within : ℕ → ℕ → Option ℕ → Option ℕ → Bool
within lo hi (some a) (some b) = (leb lo a && leb a hi) && (leb lo b && leb b hi) && leb a b
within lo hi _ _ = false

bounded_parts : ℕ → ℕ → Bool → List String → Bool
unfolding within
bounded_parts lo hi range (a ∷ []) = within lo hi (ascii_number a) (ascii_number a)
bounded_parts lo hi range (a ∷ b ∷ []) = range && within lo hi (ascii_number a) (ascii_number b)
bounded_parts lo hi range _ = false

-- `_bounded_number`: a number, or with `range` also `a-b`.
unfoldable pub bounded_number : String → ℕ → ℕ → Bool → Bool
unfolding bounded_parts
bounded_number value lo hi range = bounded_parts lo hi range (pieces (λ c. c == b'-') value)

abbrev pub fingerprints : List String
fingerprints =
    "chrome" ∷ "firefox" ∷ "safari" ∷ "ios" ∷ "android" ∷ "edge" ∷ "random" ∷ "randomized"
    ∷ "randomizednoalpn" ∷ "" ∷ []

-- `not v or _bounded_number(v, ...)`
abbrev pub empty_or : String → ℕ → ℕ → Bool → Bool
empty_or v lo hi range = str_eq v "" || bounded_number v lo hi range

good_fragment : TuningProfile → Bool
good_fragment p =
    not p.frag_enabled
    || ((str_eq p.frag_packets "tlshello" || bounded_number p.frag_packets 1 65535 true)
        && bounded_number p.frag_length 1 65535 true
        && bounded_number p.frag_interval 0 60000 true)

good_noise : Noise → Bool
good_noise other = false
good_noise (noise type packet delay) =
    any_of (λ t. str_eq type t) ("rand" ∷ "str" ∷ "base64" ∷ "hex" ∷ [])
    && (not (str_eq type "rand") || empty_or packet 1 65535 true)
    && empty_or delay 0 60000 true

-- A resolver that is set is an https:// URL with something behind the scheme.
good_doh : TuningProfile → Bool
good_doh p =
    str_eq p.doh_url "" || (starts_with p.doh_url "https://" && not (str_eq p.doh_url "https://"))

good_numbers : TuningProfile → Bool
good_numbers p =
    empty_or p.xhttp_padding 0 1000000 true
    && empty_or p.xmux_max_concurrency 0 65535 true
    && empty_or p.xmux_max_connections 0 65535 true
    && empty_or p.mux_concurrency 1 1024 false

all_noises : List Noise → Bool
unfolding good_noise
all_noises [] = true
all_noises (n ∷ ns) = good_noise n && all_noises ns

-- `validate_profile`, without the text of the error.
unfoldable pub validate_profile : TuningProfile → Bool
unfolding good_fragment all_noises good_doh good_numbers
validate_profile p =
    any_of (λ t. str_eq p.quic t) ("allow" ∷ "drop" ∷ "proxy" ∷ [])
    && any_of (λ t. str_eq p.fingerprint t) fingerprints
    && good_fragment p
    && good_doh p
    && all_noises p.noises
    && good_numbers p

-- The profiles of the store, and the one that is the default.
pub record Profiles : Type 0 where
  pub rows : List TuningProfile
  pub default : Option ℕ

get_profile : ℕ → List TuningProfile → Option TuningProfile
get_profile id [] = none
get_profile id (p ∷ ps) = if p.id == id then some p else get_profile id ps

-- `get_default_profile`
default_profile : Profiles → Option TuningProfile
unfolding get_profile
default_profile s = elim s.default [ none ↦ none | some id ↦ get_profile id s.rows ]

-- `resolve_profile`: the node's own, or the default where it has none or the row is gone.
unfoldable pub resolve_profile : Profiles → Node → Option TuningProfile
unfolding get_profile default_profile
resolve_profile s n = elim n.tuning_profile_id [
  | none ↦ default_profile s
  | some id ↦ elim (get_profile id s.rows) [ none ↦ default_profile s | some p ↦ some p ]
]
