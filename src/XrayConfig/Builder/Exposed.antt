-- ===== src/XrayConfig/Builder/Exposed.antt =====
-- xray_config/builder.py: no client reaches the services that the gateway keeps on loopback.
use mathlib.Core.List.{Memᴰ}
use v2pi.Base.{
  ◌≡◌, ◌≢◌, ◌∙◌, ap, [], All-mem, ◌⊎◌, inl, inr, refl, subst, Bool, true, false, String, Option,
  none, some, List, ◌∷◌, All, All-append, any_of, is_some, Bool-cases,
}
use v2pi.Node.{Node}
use v2pi.XrayConfig.Routing.{Field, bare, one_of}
use v2pi.XrayConfig.Routing.Checked.{route}
use v2pi.XrayConfig.Builder.{
  Config, Options, Inbound, tag_in, listen, tproxy_in6, api_in, sub_fetch, rw_in, inbounds, layered,
  loopback_rule, client_facing, loopback_nets, when, of_option, build_config,
}
use v2pi.XrayConfig.Builder.Proxy.{built, Gateway}
use v2pi.XrayConfig.Builder.Parts.{build_config-IsBuilt}

-- An inbound that others than the gateway itself can connect to is one of these.
abbrev pub IsNamed : List String → Inbound → Type 0
IsNamed tags i = (listen i ≡ some "127.0.0.1") ⊎ (one_of (tag_in i) tags ≡ true)

when-All : {A : Type 0} (P : A → Type 0) (b : Bool) (x : A) → (b ≡ true → P x) → All P (when b x)
when-All P true x h = (h refl, tt)
when-All P false x h = tt

of_option-All :
    {A B : Type 0} (P : B → Type 0) (o : Option A) (f : A → B)
    → (is_some o ≡ true → (a : A) → P (f a))
    → All P (of_option o f)
of_option-All P none f h = tt
of_option-All P (some a) f h = (h refl a, tt)

inbounds-IsNamed : (g : Gateway) (o : Options) → All (IsNamed (client_facing o)) (inbounds g o)
unfolding inbounds client_facing any_of
inbounds-IsNamed g o =
    let P = IsNamed (client_facing o) in
    (
      inr refl,
      All-append P _ _ (when-All P o.ipv6_tproxy _ six) (
          All-append P _ _ (of_option-All P o.stats (λ port. api_in port) (λ _ port. inl refl)) (
            All-append P _ _
              (when-All P o.tunneled_fetch (sub_fetch g.local_proxy_port) (λ _. inl refl))
              (of_option-All P o.rw_inbound (λ rw. rw_in rw) (λ s rw. inr (remote s))))),
    )
  where
    six : o.ipv6_tproxy ≡ true → IsNamed (client_facing o) (tproxy_in6 g.tproxy_port6 g.egress_mark)
    six e = inr (rw e refl)

    remote : is_some o.rw_inbound ≡ true → one_of "rw-in" (client_facing o) ≡ true
    remote e = elim (Bool-cases o.ipv6_tproxy) [ inl q ↦ rw (q, e) refl | inr q ↦ rw (q, e) refl ]

-- The networks of the gateway's own addresses: unspecified, loopback and link-local.
abbrev pub own_nets : List String
own_nets = "0.0.0.0/8" ∷ "127.0.0.0/8" ∷ "169.254.0.0/16" ∷ "::/128" ∷ "::1/128" ∷ "fe80::/10" ∷ []

-- xray's matching, as far as it is relied on: a rule with an inbound list and an address list and no
-- other condition takes a connection of an inbound that is listed to an address that lies in one of
-- the networks.
abbrev pub TakesListed : (Field → Bool) → (String → Bool) → String → Type 0
TakesListed hits inside tag =
    (tags nets : List String)
    → one_of tag tags ≡ true
    → any_of inside nets ≡ true
    → hits (record (bare "block") { inbound_tag = tags; ip = nets }) ≡ true

-- In a config that was built, a connection of an inbound that does not listen on 127.0.0.1, to an
-- address in one of the networks 0.0.0.0/8, 127.0.0.0/8, 169.254.0.0/16, ::/128, ::1/128 and fe80::/10,
-- is routed to `block`, whatever rules the operator has; `hits` says which rules take the connection,
-- and `inside` which networks its address lies in.
pub build_config-blocks :
    (n : Node) (g : Gateway) (o : Options) (cfg : Config) (i : Inbound) (hits : Field → Bool)
    (inside : String → Bool)
    → build_config n g o ≡ built cfg
    → Memᴰ i cfg.inbounds
    → listen i ≢ some "127.0.0.1"
    → TakesListed hits inside (tag_in i)
    → any_of inside own_nets ≡ true
    → route hits cfg.rules ≡ some "block"
unfolding layered loopback_rule route
build_config-blocks n g o cfg i hits inside h m exposed takes own =
    let p = build_config-IsBuilt n g o cfg h in
    let named =
      All-mem (IsNamed (client_facing o)) (inbounds-IsNamed g o) (subst (Memᴰ i) p.is_in m) in
    elim named [
      | inl local ↦ absurd (exposed local)
      | inr listed ↦
          ap (route hits) p.is_rules ∙ rw (takes (client_facing o) loopback_nets listed own) refl
    ]
