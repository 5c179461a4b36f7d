-- ===== src/XrayConfig/Builder/Total.antt =====
-- xray_config/builder.py: what the checks of nodes, profiles and rules let through can be built.
use text.Mathlib.Text.{starts_with}
use v2pi.Base.{
  ℕ, ◌≡◌, ◌≢◌, inl, inr, refl, sym, subst, arith, Bool, true, false, not, ◌&&◌, ◌||◌, String,
  str_eq, eq_iff, Option, none, some, List, [], ◌∷◌, any_of, if◌then◌else◌, Bool-cases,
}
use v2pi.Base.Int.{pos}
use v2pi.Base.Text.{strip, lstrip, rstrip}
use v2pi.Node.{Node, text_or}
use v2pi.Node.Normalize.{IsCoherent}
use v2pi.XrayConfig.Tuning.{TuningProfile, validate_profile, ascii_number}
use v2pi.XrayConfig.Tuning.Checked.{validate_profile_sound}
use v2pi.XrayConfig.Routing.{Addresses, one_of, RoutingRule}
use v2pi.XrayConfig.Routing.Checked.{validate_routing-served}
use v2pi.XrayConfig.Builder.{
  Config, Options, DnsServer, doh, localhost, base_rules, fragmented, build_config, resolvers,
  doh_on, doh_url,
}
use v2pi.XrayConfig.Builder.Proxy.{
  Built, built, failed, Gateway, security_choices, proxy_outbound, proxy_settings, mux_of,
  concurrency_of, ss_methods, plaintext_resolver, ◌>>=◌,
}
use v2pi.XrayConfig.Builder.Served.{PassesRouting}

-- The result is a value.
abbrev Succeeds : {A : Type 0} → Built A → Type 0
Succeeds {A} m = (a : A) × (m ≡ built a)

>>=-Succeeds :
    {A B : Type 0} (m : Built A) (f : A → Built B)
    → Succeeds m
    → ((a : A) → Succeeds (f a))
    → Succeeds (m >>= f)
>>=-Succeeds (built a) f s h = h a
>>=-Succeeds (failed e) f s h = absurd (cc (s.1))

proxy_settings-Succeeds :
    (n : Node)
    → (n.protocol ≡ "shadowsocks" → one_of n.method ss_methods ≡ true)
    → Succeeds (proxy_settings n)
unfolding proxy_settings
proxy_settings-Succeeds n h = elim (Bool-cases (str_eq n.protocol "trojan")) [
  | inl e ↦ rw e (_, refl)
  | inr e ↦ elim (Bool-cases (str_eq n.protocol "shadowsocks")) [
    | inl q ↦ rw (e, q, h ((eq_iff n.protocol "shadowsocks").0 q)) (_, refl)
    | inr q ↦ rw (e, q) (_, refl)
  ]
]

security-allowed :
    (n : Node) → IsCoherent n → one_of (text_or n.security "reality") (security_choices n) ≡ true
unfolding security_choices any_of
security-allowed n c = elim (Bool-cases (str_eq n.protocol "shadowsocks")) [
  | inl e ↦
      let q = (c.shadowsocks ((eq_iff n.protocol "shadowsocks").0 e)).0 in
      rw e (
        subst (λ s. any_of (λ t. str_eq (text_or s "reality") t) ("none" ∷ []) ≡ true) (sym q) refl)
  | inr e ↦
      let P : String → Type 0 =
        λ s. any_of (λ t. str_eq (text_or s "reality") t) ("reality" ∷ "tls" ∷ []) ≡ true in
      rw e (elim (c.ciphered (not_ss e)) [
        | inl q ↦ subst P (sym q) refl
        | inr q ↦ subst P (sym q) refl
      ])
]
  where
    not_ss : str_eq n.protocol "shadowsocks" ≡ false → n.protocol ≢ "shadowsocks"
    not_ss e q = ground (arith, eq_iff n.protocol "shadowsocks")

-- The node's profile, if it has one, has passed `validate_profile`.
abbrev pub PassesProfile : Option TuningProfile → Type 0
PassesProfile none = Unit
PassesProfile (some p) = validate_profile p ≡ true

-- `int` reads what is written in ASCII digits.
abbrev pub ReadsDigits : Gateway → Type 0
ReadsDigits g = (s : String) (k : ℕ) → ascii_number s ≡ some k → g.int s ≡ some (pos k)

concurrency_of-Succeeds :
    (g : Gateway) (p : TuningProfile)
    → ReadsDigits g
    → validate_profile p ≡ true
    → Succeeds (concurrency_of g p)
unfolding concurrency_of strip lstrip rstrip
concurrency_of-Succeeds g p reads h = elim (validate_profile_sound p h).1 [
  | inl e ↦ (none, rw (e, concurrency_of) (ground arith))
  | inr (k, (e, lo, hi)) ↦
      elim (Bool-cases (p.mux_enabled && not (str_eq (strip p.mux_concurrency) ""))) [
        | inl q ↦ (some (pos k), rw q (rw (reads p.mux_concurrency k e) refl))
        | inr q ↦ (none, rw q refl)
      ]
]

mux_of-Succeeds :
    (g : Gateway) (n : Node) (q : Option TuningProfile)
    → ReadsDigits g
    → PassesProfile q
    → Succeeds (mux_of g n q)
unfolding mux_of
mux_of-Succeeds g n none reads h = (none, refl)
mux_of-Succeeds g n (some p) reads h =
    elim (Bool-cases (str_eq n.flow "" && not (str_eq n.protocol "shadowsocks"))) [
      | inl e ↦ rw e (
          >>=-Succeeds (concurrency_of g p) _ (concurrency_of-Succeeds g p reads h)
            (λ c. (_, refl)))
      | inr e ↦ (none, rw e refl)
    ]

resolvers-Succeeds :
    (g : Gateway) (o : Options)
    → starts_with g.doh_url "https://" ≡ true
    → PassesProfile o.profile
    → Succeeds (resolvers g o)
unfolding resolvers
resolvers-Succeeds g o https h =
    turn (o.dns_intercept || doh_on o.profile) (starts_with (doh_url o.profile g) "https://")
      (by_profile o.profile h)
  where
    by_profile :
        (q : Option TuningProfile) → PassesProfile q → starts_with (doh_url q g) "https://" ≡ true
    by_profile none h = https
    by_profile (some p) h = elim (Bool-cases (str_eq p.doh_url "")) [
      | inl e ↦ rw e https
      | inr e ↦ elim (validate_profile_sound p h).0 [
        | inl z ↦ absurd (ground (arith, eq_iff p.doh_url ""))
        | inr z ↦ rw e z
      ]
    ]

    turn :
        (a s : Bool)
        → s ≡ true
        → Succeeds {A = List DnsServer} (
            if a
            then (if s then built (doh (doh_url o.profile g) ∷ []) else failed plaintext_resolver)
            else built (localhost ∷ []))
    turn true true e = (_, refl)
    turn true false e = absurd (cc e)
    turn false s e = (_, refl)

base_rules-Succeeds :
    (ip : Addresses) (r : Option (List RoutingRule × String))
    → PassesRouting ip r
    → Succeeds (base_rules r)
unfolding base_rules
base_rules-Succeeds ip none h = (_, refl)
base_rules-Succeeds ip (some (rules, d)) h =
    let (fs, (e, served)) = validate_routing-served ip rules d h in (fs, rw (e, base_rules) refl)

proxy_outbound-Succeeds :
    (n : Node) (g : Gateway) (q : Option TuningProfile) (explicit fragmented : Bool)
    → IsCoherent n
    → (n.protocol ≡ "shadowsocks" → one_of n.method ss_methods ≡ true)
    → ReadsDigits g
    → PassesProfile q
    → Succeeds (proxy_outbound n g q explicit fragmented)
unfolding proxy_outbound
proxy_outbound-Succeeds n g q explicit fragmented c m reads h =
    >>=-Succeeds (proxy_settings n) _ (proxy_settings-Succeeds n m) (λ s.
      rw (security-allowed n c)
        (>>=-Succeeds (mux_of g n q) _ (mux_of-Succeeds g n q reads h) (λ x. (_, refl))))

-- A node that was normalized, with a cipher that xray knows if it is Shadowsocks, a profile and rules
-- that passed the checks, and a resolver of the panel over https give a config: the build never fails
-- on what the panel has accepted.
pub build_config-total :
    (n : Node) (g : Gateway) (o : Options) (ip : Addresses)
    → IsCoherent n
    → (n.protocol ≡ "shadowsocks" → one_of n.method ss_methods ≡ true)
    → PassesProfile o.profile
    → PassesRouting ip o.routing
    → starts_with g.doh_url "https://" ≡ true
    → ReadsDigits g
    → (cfg : Config) × (build_config n g o ≡ built cfg)
unfolding build_config
build_config-total n g o ip c m profile routing https reads =
    >>=-Succeeds (resolvers g o) _ (resolvers-Succeeds g o https profile) (λ dns.
      >>=-Succeeds (proxy_outbound n g o.profile o.profile_explicit (fragmented o.profile)) _
        (proxy_outbound-Succeeds n g o.profile o.profile_explicit (fragmented o.profile) c m reads
          profile)
        (λ p.
          >>=-Succeeds (base_rules o.routing) _ (base_rules-Succeeds ip o.routing routing)
            (λ fs. (_, refl))))
