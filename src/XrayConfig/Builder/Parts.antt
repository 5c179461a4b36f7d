-- ===== src/XrayConfig/Builder/Parts.antt =====
-- xray_config/builder.py: a config that was built, taken apart.
use v2pi.Base.{◌≡◌, refl, ap, sym, List, is_some}
use v2pi.Node.{Node}
use v2pi.XrayConfig.Routing.{Field}
use v2pi.XrayConfig.Builder.Proxy.{Built, built, failed, ◌>>=◌, Gateway, ProxyOut, proxy_outbound}
use v2pi.XrayConfig.Builder.{
  Config, Options, DnsServer, resolvers, inbounds, outbounds, base_rules, layered, fragmented,
  assemble, build_config,
}

-- Inversion of a step of the build.
pub >>=-eq-built :
    {A B : Type 0} (m : Built A) (f : A → Built B) {b : B}
    → (m >>= f) ≡ built b
    → (a : A) × ((m ≡ built a) × (f a ≡ built b))
>>=-eq-built (built a) f h = (a, (refl, h))
>>=-eq-built (failed e) f h = absurd (cc h)

pub eq_of_built : {A : Type 0} {a b : A} → built a ≡ built b → a ≡ b
eq_of_built h = cc

pub record IsBuilt (n : Node) (g : Gateway) (o : Options) (cfg : Config) : Type 0 where
  pub dns : List DnsServer
  pub out : ProxyOut
  pub fields : List Field
  pub has_dns : resolvers g o ≡ built dns
  pub has_out : proxy_outbound n g o.profile o.profile_explicit (fragmented o.profile) ≡ built out
  pub has_fields : base_rules o.routing ≡ built fields
  pub is_dns : cfg.dns_servers ≡ dns
  pub is_in : cfg.inbounds ≡ inbounds g o
  pub is_out : cfg.outbounds ≡ outbounds g o out
  pub is_rules : cfg.rules ≡ layered o fields
  pub is_stats : cfg.stats ≡ is_some o.stats

pub build_config-IsBuilt :
    (n : Node) (g : Gateway) (o : Options) (cfg : Config)
    → build_config n g o ≡ built cfg
    → IsBuilt n g o cfg
unfolding build_config assemble
build_config-IsBuilt n g o cfg h =
    let (dns, (e₁, h₁)) = >>=-eq-built (resolvers g o) _ h in
    let (out, (e₂, h₂)) = >>=-eq-built (proxy_outbound n g o.profile o.profile_explicit _) _ h₁ in
    let (fs, (e₃, h₃)) = >>=-eq-built (base_rules o.routing) _ h₂ in
    let e = eq_of_built h₃ in
    record {
      dns = dns;
      out = out;
      fields = fs;
      has_dns = e₁;
      has_out = e₂;
      has_fields = e₃;
      is_dns = ap (λ c. c.dns_servers) (sym e);
      is_in = ap (λ c. c.inbounds) (sym e);
      is_out = ap (λ c. c.outbounds) (sym e);
      is_rules = ap (λ c. c.rules) (sym e);
      is_stats = ap (λ c. c.stats) (sym e);
    }
