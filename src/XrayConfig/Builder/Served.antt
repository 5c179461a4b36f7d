-- ===== src/XrayConfig/Builder/Served.antt =====
-- xray_config/builder.py: every rule of a config leads somewhere, and nothing leaves in the clear.
use mathlib.Core.List.{Memᴰ}
use v2pi.Base.{
  ◌≡◌, ◌⊎◌, inl, inr, refl, ap, sym, subst, ◌∙◌, Bool, true, false, ◌||◌, String, str_eq, eq_iff,
  Option, none, some, List, [], ◌∷◌, All, All-append, All-of, All-mem, any_of-witness, is_some,
  if◌then◌else◌, Bool-cases, mem-append_left, mem-append_right, eq_of_some,
}
use v2pi.Node.{Node}
use v2pi.XrayConfig.Tuning.{TuningProfile}
use v2pi.XrayConfig.Routing.{
  Field, RoutingRule, Addresses, one_of, actions, private_rule, catch_all, rules_to_xray,
  validate_routing,
}
use v2pi.XrayConfig.Routing.Checked.{validate_routing-served}
use v2pi.XrayConfig.Builder.{
  Config, Options, Outbound, proxy, direct, block, dns_out, direct_lan, tag_out, outbounds,
  fragment_part, hosts_of, is_nil, base_rules, layered, loopback_rule, with_quic, quic_rule,
  is_private, insert_after, dns_rule, api_rule, rw_lan_rule, before_last, when, build_config,
}
use v2pi.XrayConfig.Builder.Proxy.{Built, built, failed, Gateway, ProxyOut, bad_rules}
use v2pi.XrayConfig.Builder.Parts.{build_config-IsBuilt, eq_of_built}

-- The rule sends to an outbound that is there, or to the api where the config has one.
abbrev pub Leads : List Outbound → Bool → Field → Type 0
Leads outs stats f =
    ((x : Outbound) × (Memᴰ x outs × (tag_out x ≡ f.outbound_tag)))
    ⊎ ((f.outbound_tag ≡ "api") × (stats ≡ true))

insert_after-All :
    (P : Field → Type 0) (p : Field → Bool) (f : Field) (fs gs : List Field)
    → P f
    → All P fs
    → insert_after p f fs ≡ some gs
    → All P gs
unfolding insert_after
insert_after-All P p f [] gs x h e = absurd (cc e)
insert_after-All P p f (g ∷ fs) gs x h e =
    turn (p g) (insert_after p f fs) e (λ hs q. insert_after-All P p f fs hs x h.1 q)
  where
    turn :
        (b : Bool) (rest : Option (List Field))
        → (if b then some (g ∷ f ∷ fs) else elim rest [ none ↦ none | some hs ↦ some (g ∷ hs) ])
          ≡ some gs
        → ((hs : List Field) → rest ≡ some hs → All P hs)
        → All P gs
    turn true rest e ih = subst (All P) (eq_of_some e) (h.0, (x, h.1))
    turn false none e ih = absurd (cc e)
    turn false (some hs) e ih = subst (All P) (eq_of_some e) (h.0, ih hs refl)

before_last-All :
    (P : Field → Type 0) (f : Field) (fs : List Field) → P f → All P fs → All P (before_last f fs)
unfolding before_last
before_last-All P f [] x h = (x, tt)
before_last-All P f (g ∷ []) x h = (x, (h.0, tt))
before_last-All P f (g ∷ g' ∷ gs) x h = (h.0, before_last-All P f (g' ∷ gs) x h.1)

when-All : (P : Field → Type 0) (b : Bool) (f : Field) → (b ≡ true → P f) → All P (when b f)
when-All P true f h = (h refl, tt)
when-All P false f h = tt

module _ (g : Gateway) (o : Options) (p : ProxyOut) where
  abbrev Goes : Field → Type 0
  Goes f = Leads (outbounds g o p) (is_some o.stats) f

  abbrev Has : Outbound → Type 0
  Has x = Memᴰ x (outbounds g o p)

  Has-proxy : Has (proxy p)
  unfolding outbounds
  Has-proxy = Memᴰ.head refl

  Has-direct : Has (direct g.egress_mark)
  unfolding outbounds
  Has-direct = Memᴰ.tail (mem-append_right (fragment_part g o.profile) (Memᴰ.head refl))

  Has-block : Has block
  unfolding outbounds
  Has-block = Memᴰ.tail (mem-append_right (fragment_part g o.profile) (Memᴰ.tail (Memᴰ.head refl)))

  Has-dns : o.dns_intercept ≡ true → Has dns_out
  unfolding outbounds
  Has-dns e = Memᴰ.tail (
      mem-append_right (fragment_part g o.profile) (
        Memᴰ.tail (
          Memᴰ.tail
            (mem-append_left {xs = when o.dns_intercept dns_out} _ (rw e (Memᴰ.head refl))))))

  Has-lan : is_nil (hosts_of o.rw_inbound) ≡ false → Has (direct_lan g.egress_mark)
  unfolding outbounds
  Has-lan e = Memᴰ.tail (
      mem-append_right (fragment_part g o.profile) (
        Memᴰ.tail
          (Memᴰ.tail (mem-append_right (when o.dns_intercept dns_out) (rw e (Memᴰ.head refl))))))

  -- The three actions of the operator's rules.
  action-Goes : (f : Field) → one_of f.outbound_tag actions ≡ true → Goes f
  action-Goes f h =
      let (a, (m, e)) = any_of-witness (λ t. str_eq f.outbound_tag t) actions h in
      by_action a m ((eq_iff f.outbound_tag a).0 e)
    where
      by_action : (a : String) → Memᴰ a actions → f.outbound_tag ≡ a → Goes f
      by_action a (Memᴰ.head q) e = inl (direct g.egress_mark, (Has-direct, sym (e ∙ q)))
      by_action a (Memᴰ.tail (Memᴰ.head q)) e = inl (proxy p, (Has-proxy, sym (e ∙ q)))
      by_action a (Memᴰ.tail (Memᴰ.tail (Memᴰ.head q))) e = inl (block, (Has-block, sym (e ∙ q)))
      by_action a (Memᴰ.tail (Memᴰ.tail (Memᴰ.tail m))) e = elim m [ ]

  with_quic-Goes :
      (q : Option TuningProfile) (fs : List Field) → All Goes fs → All Goes (with_quic q fs)
  unfolding with_quic quic_rule
  with_quic-Goes none fs h = h
  with_quic-Goes (some q) fs h =
      placed (str_eq q.quic "drop") (str_eq q.quic "drop" || str_eq q.quic "proxy")
    where
      tag_of : Bool → String
      tag_of b = if b then "block" else "proxy"

      leads : (b : Bool) → Goes (quic_rule (tag_of b))
      leads true = inl (block, (Has-block, refl))
      leads false = inl (proxy p, (Has-proxy, refl))

      put :
          (b : Bool) (r : Option (List Field))
          → insert_after is_private (quic_rule (tag_of b)) fs ≡ r
          → All Goes (elim r [ none ↦ quic_rule (tag_of b) ∷ fs | some gs ↦ gs ])
      put b none e = (leads b, h)
      put b (some gs) e =
          insert_after-All Goes is_private (quic_rule (tag_of b)) fs gs (leads b) h e

      placed :
          (b c : Bool)
          → All Goes (
              if c
              then elim (insert_after is_private (quic_rule (tag_of b)) fs) [
                | none ↦ quic_rule (tag_of b) ∷ fs
                | some gs ↦ gs
              ]
              else fs)
      placed b true = put b _ refl
      placed b false = h

  layered-Goes : (fs : List Field) → All Goes fs → All Goes (layered o fs)
  unfolding layered loopback_rule dns_rule api_rule rw_lan_rule
  layered-Goes fs h =
      let quic = with_quic-Goes o.profile fs h in
      let dns =
        All-append Goes _ _
          (when-All Goes o.dns_intercept (dns_rule o.ipv6_tproxy)
            (λ e. inl (dns_out, (Has-dns e, refl))))
          quic in
      let api =
        All-append Goes _ _ (when-All Goes (is_some o.stats) api_rule (λ e. inr (refl, e))) dns in
      (
        inl (block, (Has-block, refl)),
        elim (Bool-cases (is_nil (hosts_of o.rw_inbound))) [
          | inl e ↦ rw e api
          | inr e ↦ rw e (
              before_last-All Goes (rw_lan_rule (hosts_of o.rw_inbound)) _
                (inl (direct_lan g.egress_mark, (Has-lan e, refl))) api)
        ],
      )

pub base_rules-fields :
    (r : Option (List RoutingRule × String)) (fs : List Field)
    → base_rules r ≡ built fs
    → ((r ≡ none) × (fs ≡ private_rule ∷ catch_all "proxy" ∷ []))
      ⊎ ((q : List RoutingRule × String) × ((r ≡ some q) × (rules_to_xray q.0 q.1 ≡ some fs)))
unfolding base_rules
base_rules-fields none fs h = inl (refl, sym (eq_of_built h))
base_rules-fields (some (rules, d)) fs h = inr ((rules, d), (refl, turn (rules_to_xray rules d) h))
  where
    turn :
        (o : Option (List Field))
        → ◌≡◌ {A = Built (List Field)}
            (elim o [ none ↦ failed bad_rules | some gs ↦ built gs ])
            (built fs)
        → o ≡ some fs
    turn none q = absurd (cc q)
    turn (some gs) q = ap some (eq_of_built q)

-- The operator's rules have passed `validate_routing`.
abbrev pub PassesRouting : Addresses → Option (List RoutingRule × String) → Type 0
PassesRouting ip none = Unit
PassesRouting ip (some (rules, default_action)) = validate_routing ip rules default_action ≡ true

base_rules-Goes :
    (g : Gateway) (o : Options) (p : ProxyOut) (ip : Addresses) (fs : List Field)
    → PassesRouting ip o.routing
    → base_rules o.routing ≡ built fs
    → All (Goes g o p) fs
base_rules-Goes g o p ip fs v h = elim (base_rules-fields o.routing fs h) [
  | inl e ↦ subst (All (Goes g o p)) (sym e.1) (
    inl (direct g.egress_mark, (Has-direct g o p, refl)),
    (inl (proxy p, (Has-proxy g o p, refl)), tt),
  )
  | inr (q, (e, t)) ↦
      let v' : validate_routing ip q.0 q.1 ≡ true = subst (PassesRouting ip) e v in
      let (gs, (u, served)) = validate_routing-served ip q.0 q.1 v' in
      subst (All (Goes g o p)) (eq_of_some (sym u ∙ t))
        (All-of _ gs (λ f m. action-Goes g o p f (All-mem _ served m)))
]

-- In a config that was built over rules that passed the checks, every rule sends to an outbound that
-- the config has, or to the api where the config has one.
pub build_config-Leads :
    (n : Node) (g : Gateway) (o : Options) (cfg : Config) (ip : Addresses)
    → PassesRouting ip o.routing
    → build_config n g o ≡ built cfg
    → All (Leads cfg.outbounds cfg.stats) cfg.rules
build_config-Leads n g o cfg ip v h =
    let b = build_config-IsBuilt n g o cfg h in
    subst (λ outs. All (Leads outs cfg.stats) cfg.rules) (sym b.is_out)
      (subst (λ s. All (Leads (outbounds g o b.out) s) cfg.rules) (sym b.is_stats)
        (subst (All (Goes g o b.out)) (sym b.is_rules)
          (layered-Goes g o b.out b.fields (base_rules-Goes g o b.out ip b.fields v b.has_fields))))
