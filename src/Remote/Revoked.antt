-- ===== src/Remote/Revoked.antt =====
-- rw_inbound.py and xray_config/builder.py: a client that is deleted or suspended is in no config that is
-- built afterwards.
use v2pi.Base.{
  ◌≡◌, inl, inr, refl, ap, sym, subst, ◌∙◌, ◌≤◌, arith, Bool, true, false, not, ◌&&◌, ◌==◌, String,
  str_eq, Option, none, some, List, [], ◌∷◌, map, keep, any_of, length, All, All-append, Bool-cases,
  ==_iff, get_or,
}
use v2pi.Base.Text.{strip}
use v2pi.Node.{Node}
use v2pi.XrayConfig.Builder.{
  Client, RwInbound, Inbound, api_in, rw_in, Config, Options, inbounds, when, of_option,
  build_config,
}
use v2pi.XrayConfig.Builder.Proxy.{built, Gateway}
use v2pi.XrayConfig.Builder.Parts.{build_config-IsBuilt}
use v2pi.Remote.{
  Entry, entry, Roster, entries, is_client, get_clients, set_clients, delete_client, with_enabled,
  set_client_enabled, Stored, Checks, as_client, inbound_of, served, resolve,
}

-- The inbound lets a client with this id in.
abbrev pub grants : String → Inbound → Bool
grants id (rw_in rw) = any_of (λ c. str_eq c.id id) rw.clients
grants id _ = false

-- Of the clients of the list, an enabled one has this id.
abbrev pub admits : String → List Entry → Bool
admits id cs = any_of (λ c. c.enabled && str_eq c.id id) cs

module _ {A : Type 0} where
  any_of-keep : (p q : A → Bool) (xs : List A) → any_of p xs ≡ false → any_of p (keep q xs) ≡ false
  unfolding any_of keep
  any_of-keep p q [] h = refl
  any_of-keep p q (x ∷ xs) h = ground (arith, any_of-keep p q xs)

  any_of-keep-not : (p : A → Bool) (xs : List A) → any_of p (keep (λ x. not (p x)) xs) ≡ false
  unfolding any_of keep
  any_of-keep-not p [] = refl
  any_of-keep-not p (x ∷ xs) = ground (arith, any_of-keep-not p xs)

  length-keep : (q : A → Bool) (xs : List A) → length (keep q xs) ≤ length xs
  unfolding keep
  length-keep q [] = omega arith
  length-keep q (x ∷ xs) = ground (arith, length-keep q xs)

  keep-whole :
      (p : A → Bool) (xs : List A)
      → length (keep (λ x. not (p x)) xs) ≡ length xs
      → any_of p xs ≡ false
  unfolding any_of keep
  keep-whole p [] h = refl
  keep-whole p (x ∷ xs) h = ground (arith, keep-whole p xs, length-keep (λ y. not (p y)) xs)

  any_of-weaker :
      (p q : A → Bool) (xs : List A)
      → ((x : A) → p x ≡ true → q x ≡ true)
      → any_of q xs ≡ false
      → any_of p xs ≡ false
  unfolding any_of
  any_of-weaker p q [] w h = refl
  any_of-weaker p q (x ∷ xs) w h = ground (arith, any_of-weaker p q xs w, w x)

entries-map : (cs : List Entry) → entries (map entry cs) ≡ cs
unfolding entries
entries-map [] = refl
entries-map (c ∷ cs) = ap (λ r. c ∷ r) (entries-map cs)

admits-set_clients :
    (id : String) (cs : List Entry)
    → admits id cs ≡ false
    → admits id (get_clients (set_clients cs)) ≡ false
unfolding get_clients set_clients
admits-set_clients id cs h =
    subst (λ r. admits id (keep is_client r) ≡ false) (sym (entries-map cs))
      (any_of-keep _ is_client cs h)

admits-enabled :
    (id : String) (cs : List Entry) → any_of (λ c. str_eq c.id id) cs ≡ false → admits id cs ≡ false
admits-enabled id cs h = any_of-weaker _ _ cs (λ c e. ground (arith, e)) h

admits-delete_client :
    (id : String) (r : Roster) → admits id (get_clients (delete_client id r).1) ≡ false
unfolding delete_client
admits-delete_client id r =
    let cs = get_clients r in
    let kept = keep (λ (c : Entry). not (str_eq c.id id)) cs in
    elim (Bool-cases (length kept == length cs)) [
      | inl e ↦ rw e (
          admits-enabled id cs
            (keep-whole (λ c. str_eq c.id id) cs ((==_iff (length kept) (length cs)).0 e)))
      | inr e ↦ rw e (
          admits-set_clients id kept
            (admits-enabled id kept (any_of-keep-not (λ c. str_eq c.id id) cs)))
    ]

admits-with_enabled : (id : String) (cs : List Entry) → admits id (with_enabled id false cs) ≡ false
unfolding with_enabled any_of
admits-with_enabled id [] = refl
admits-with_enabled id (c ∷ cs) = ground (arith, admits-with_enabled id cs)

admits-set_client_enabled :
    (id : String) (r : Roster) → admits id (get_clients (set_client_enabled id false r).1) ≡ false
unfolding set_client_enabled
admits-set_client_enabled id r =
    let cs = get_clients r in
    elim (Bool-cases (any_of (λ c. str_eq c.id id) cs)) [
      | inl e ↦ rw e (admits-set_clients id (with_enabled id false cs) (admits-with_enabled id cs))
      | inr e ↦ rw e (admits-enabled id cs e)
    ]

inbound_of-clients :
    (ch : Checks) (st : Stored) (cs : List Entry) (rw : RwInbound)
    → inbound_of ch st cs ≡ some rw
    → rw.clients ≡ map as_client cs
unfolding inbound_of
inbound_of-clients ch st cs r h = ground arith

served-clients :
    (ch : Checks) (st : Stored) (cs : List Entry) (rw : RwInbound)
    → served ch st cs ≡ some rw
    → rw.clients ≡ map as_client cs
unfolding served
served-clients ch st [] r h = absurd (cc h)
served-clients ch st (c ∷ cs) r h = inbound_of-clients ch st (c ∷ cs) r h

admits-clients :
    (id : String) (cs : List Entry)
    → any_of (λ (c : Client). str_eq c.id id) (map as_client (keep (λ c. c.enabled) cs))
      ≡ admits id cs
unfolding any_of keep as_client
admits-clients id [] = refl
admits-clients id (c ∷ cs) = ground (arith, admits-clients id cs)

resolve-admits :
    (ch : Checks) (st : Stored) (r : Roster) (id : String) (rw : RwInbound)
    → admits id (get_clients r) ≡ false
    → resolve ch st r ≡ some rw
    → grants id (rw_in rw) ≡ false
unfolding resolve
resolve-admits ch st r id w h e = elim (Bool-cases (str_eq (get_or st.enabled "0") "1")) [
  | inl a ↦ elim (Bool-cases (str_eq (strip (get_or st.private_key "")) "")) [
    | inl b ↦ absurd (cc (rw (a, b) at e))
    | inr b ↦
        let c = served-clients ch st _ w (rw (a, b) at e) in
        ap (λ cs. any_of (λ (c : Client). str_eq c.id id) cs) c
        ∙ (admits-clients id (get_clients r) ∙ h)
  ]
  | inr a ↦ absurd (cc (rw a at e))
]

refuses-inbounds :
    (id : String) (g : Gateway) (o : Options)
    → ((rw : RwInbound) → o.rw_inbound ≡ some rw → grants id (rw_in rw) ≡ false)
    → All (λ i. grants id i ≡ false) (inbounds g o)
unfolding inbounds
refuses-inbounds id g o h =
    let P : Inbound → Type 0 = λ i. grants id i ≡ false in
    (
      refl,
      All-append P _ _ (one P o.ipv6_tproxy _ refl) (
          All-append P _ _ (each P o.stats (λ port. api_in port) (λ port e. refl)) (
            All-append P _ _ (one P o.tunneled_fetch _ refl)
              (each P o.rw_inbound (λ rw. rw_in rw) h))),
    )
  where
    one : (P : Inbound → Type 0) (b : Bool) (i : Inbound) → P i → All P (when b i)
    one P true i h = (h, tt)
    one P false i h = tt

    each :
        {A : Type 0} (P : Inbound → Type 0) (a : Option A) (f : A → Inbound)
        → ((x : A) → a ≡ some x → P (f x))
        → All P (of_option a f)
    each P none f h = tt
    each P (some x) f h = (h x refl, tt)

-- The config lets nobody in under this id.
abbrev pub Refuses : String → Config → Type 0
Refuses id cfg = All (λ i. grants id i ≡ false) cfg.inbounds

build_config-Refuses :
    (n : Node) (g : Gateway) (o : Options) (cfg : Config) (ch : Checks) (st : Stored) (r : Roster)
    (id : String)
    → admits id (get_clients r) ≡ false
    → build_config n g (record o { rw_inbound = resolve ch st r }) ≡ built cfg
    → Refuses id cfg
build_config-Refuses n g o cfg ch st r id h e =
    let o' : Options = record o { rw_inbound = resolve ch st r } in
    let b = build_config-IsBuilt n g o' cfg e in
    subst (All (λ i. grants id i ≡ false)) (sym b.is_in)
      (refuses-inbounds id g o' (λ rw q. resolve-admits ch st r id rw h q))

-- Whatever the stored settings, the list of clients and the rest of the config: after a client was
-- deleted, or suspended, no config that is built lets it in.
pub delete_client-Refuses :
    (id : String) (r : Roster) (ch : Checks) (st : Stored) (n : Node) (g : Gateway) (o : Options)
    (cfg cfg' : Config)
    → build_config n g (record o { rw_inbound = resolve ch st (delete_client id r).1 }) ≡ built cfg
    → build_config n g (record o { rw_inbound = resolve ch st (set_client_enabled id false r).1 })
      ≡ built cfg'
    → Refuses id cfg × Refuses id cfg'
delete_client-Refuses id r ch st n g o cfg cfg' h h' = (
  build_config-Refuses n g o cfg ch st _ id (admits-delete_client id r) h,
  build_config-Refuses n g o cfg' ch st _ id (admits-set_client_enabled id r) h',
)
