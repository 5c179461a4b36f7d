-- ===== src/XrayConfig/Builder/Encrypted.antt =====
-- xray_config/builder.py: names are resolved over https, and the tunnel is never plaintext VLESS.
use mathlib.Core.List.{Memᴰ}
use text.Mathlib.Text.{starts_with}
use v2pi.Base.{
  ◌≡◌, ◌≢◌, ◌⊎◌, inl, inr, str_eq, Bool-cases, refl, ap, sym, subst, ◌∙◌, arith, Bool, true, false,
  ◌||◌, String, eq_iff, Option, none, some, List, [], ◌∷◌, ◌++◌, any_of, if◌then◌else◌,
}
use v2pi.Node.{Node}
use v2pi.XrayConfig.Tuning.{TuningProfile}
use v2pi.XrayConfig.Routing.{one_of}
use v2pi.XrayConfig.Builder.{
  Config, Options, Outbound, DnsServer, doh, localhost, tag_out, proxy, fragment, outbounds,
  fragmented, fragment_part, when, build_config, resolvers, doh_on, doh_url,
}
use v2pi.XrayConfig.Builder.Proxy.{
  Built, built, failed, Gateway, ProxyOut, security_choices, proxy_outbound, proxy_settings, mux_of,
  unsupported_security, plaintext_resolver,
}
use v2pi.XrayConfig.Builder.Parts.{build_config-IsBuilt, >>=-eq-built, eq_of_built}

resolvers-https :
    (g : Gateway) (o : Options) (dns : List DnsServer)
    → (o.dns_intercept || doh_on o.profile) ≡ true
    → resolvers g o ≡ built dns
    → (dns ≡ doh (doh_url o.profile g) ∷ []) × (starts_with (doh_url o.profile g) "https://" ≡ true)
unfolding resolvers
resolvers-https g o dns on h =
    turn (o.dns_intercept || doh_on o.profile) (starts_with (doh_url o.profile g) "https://")
      (doh_url o.profile g) h on
  where
    turn :
        (a s : Bool) (url : String)
        → ◌≡◌ {A = Built (List DnsServer)}
            (if a
              then (if s then built (doh url ∷ []) else failed plaintext_resolver)
              else built (localhost ∷ []))
            (built dns)
        → a ≡ true
        → (dns ≡ doh url ∷ []) × (s ≡ true)
    turn true true url q e = (sym (eq_of_built q), refl)
    turn true false url q e = absurd (cc q)
    turn false s url q e = absurd (cc e)

allowed :
    (b : Bool)
    → ◌≡◌ {A = Built (Unit {0})} (if b then built tt else failed unsupported_security) (built tt)
    → b ≡ true
allowed true h = refl
allowed false h = absurd (cc h)

proxy_outbound-stream :
    (n : Node) (g : Gateway) (profile : Option TuningProfile) (explicit fragmented : Bool)
    (p : ProxyOut)
    → proxy_outbound n g profile explicit fragmented ≡ built p
    → (one_of p.stream.security (security_choices n) ≡ true)
      × (p.stream.dialer_proxy ≡ (if fragmented then some "fragment" else none))
unfolding proxy_outbound
proxy_outbound-stream n g profile explicit fragmented p h =
    let (s, (e₁, h₁)) = >>=-eq-built (proxy_settings n) _ h in
    let (u, (e₂, h₂)) = >>=-eq-built {A = Unit {0}} _ _ h₁ in
    let (m, (e₃, h₃)) = >>=-eq-built (mux_of g n profile) _ h₂ in
    let e = eq_of_built h₃ in
    (
      subst (λ (q : ProxyOut). one_of q.stream.security (security_choices n) ≡ true) e
          (allowed _ e₂),
      ap (λ (q : ProxyOut). q.stream.dialer_proxy) (sym e),
    )

security_choices-ciphered :
    (n : Node) (security : String)
    → one_of security (security_choices n) ≡ true
    → n.protocol ≢ "shadowsocks"
    → (security ≡ "reality") ⊎ (security ≡ "tls")
unfolding security_choices any_of
security_choices-ciphered n security h ne =
    ground
      (arith, eq_iff n.protocol "shadowsocks", eq_iff security "reality", eq_iff security "tls")

-- Whatever node and profile a config was built of: with DoH, or with DNS interception, its only
-- resolver is one over https; its first outbound is the tunnel, which is under reality or tls unless
-- the node is Shadowsocks; and if the tunnel dials through another outbound, that one is there.
pub build_config-encrypted :
    (n : Node) (g : Gateway) (o : Options) (cfg : Config)
    → build_config n g o ≡ built cfg
    → (((o.dns_intercept || doh_on o.profile) ≡ false)
        ⊎ ((url : String) × ((cfg.dns_servers ≡ doh url ∷ [])
              × (starts_with url "https://" ≡ true))))
      × ((p : ProxyOut) × ((rest : List Outbound) × ((cfg.outbounds ≡ proxy p ∷ rest)
              × ((n.protocol ≡ "shadowsocks")
                  ⊎ ((p.stream.security ≡ "reality") ⊎ (p.stream.security ≡ "tls")))
              × ((p.stream.dialer_proxy ≡ none)
                  ⊎ ((x : Outbound) × (Memᴰ x rest
                        × (p.stream.dialer_proxy ≡ some (tag_out x))))))))
unfolding outbounds fragment_part fragmented
build_config-encrypted n g o cfg h =
    let b = build_config-IsBuilt n g o cfg h in
    let t = proxy_outbound-stream n g o.profile o.profile_explicit _ b.out b.has_out in
    (
      elim (Bool-cases (o.dns_intercept || doh_on o.profile)) [
        | inl on ↦
            let r = resolvers-https g o b.dns on b.has_dns in
            inr (doh_url o.profile g, (b.is_dns ∙ r.0, r.1))
        | inr off ↦ inl off
      ],
      (
        b.out,
        (
          _,
          (
            b.is_out,
            elim (Bool-cases (str_eq n.protocol "shadowsocks")) [
              | inl e ↦ inl ((eq_iff n.protocol "shadowsocks").0 e)
              | inr ne ↦ inr (
                  security_choices-ciphered n _ t.0
                    (λ e. absurd (cc ((eq_iff n.protocol "shadowsocks").1 e, ne))))
            ],
            dials _ o.profile b.out.stream.dialer_proxy t.1,
          ),
        ),
      ),
    )
  where
    dials :
        (others : List Outbound) (q : Option TuningProfile) (dialer : Option String)
        → dialer ≡ (if fragmented q then some "fragment" else none)
        → (dialer ≡ none)
          ⊎ ((x : Outbound) × (Memᴰ x (fragment_part g q ++ others) × (dialer ≡ some (tag_out x))))
    dials others none dialer e = inl e
    dials others (some q) dialer e = by_flag (fragmented (some q)) e
      where
        by_flag :
            (f : Bool)
            → dialer ≡ (if f then some "fragment" else none)
            → (dialer ≡ none)
              ⊎ ((x : Outbound) × (Memᴰ x (when f (fragment g.egress_mark q) ++ others)
                    × (dialer ≡ some (tag_out x))))
        by_flag true e = inr (fragment g.egress_mark q, (Memᴰ.head refl, e))
        by_flag false e = inl e
