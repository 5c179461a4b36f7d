-- ===== src/XrayConfig/Routing/Checked.antt =====
-- xray_config/routing.py: a ruleset that passed the checks becomes rules that xray can serve.
use v2pi.Base.{
  Bool, true, false, not, String, Option, none, some, List, [], ◌∷◌, any_of, ◌≡◌, ◌≢◌, refl, ap,
  sym, subst, ◌∙◌, arith, if◌then◌else◌, All, Option-cases, inl, inr, All-of, All-mem, eq_of_some,
}
use v2pi.Base.Sort.{sort, mem-sort}
use v2pi.XrayConfig.Routing.{
  RoutingRule, Field, Addresses, Problem, or_else, check, one_of, rule_types, actions, split,
  validate_rule, validate_routing, rules_fit, check_dataset, ext_file, values_field, rule_to_field,
  fields_then, cons_field, in_order, rules_to_xray, catch_all, private_rule, is_empty,
}

or_else-none : (p q : Option Problem) → or_else p q ≡ none → (p ≡ none) × (q ≡ none)
or_else-none none q h = (refl, h)
or_else-none (some p) q h = absurd (cc h)

check-none : (b : Bool) (p : Problem) → check b p ≡ none → b ≡ true
check-none true p h = refl
check-none false p h = absurd (cc h)

-- What the checks of one rule say, as facts.
record IsChecked (r : RoutingRule) : Type 0 where
  known_type : one_of r.type rule_types ≡ true
  known_dataset : check_dataset r ≡ none
  known_action : one_of r.action actions ≡ true
  has_value : not (is_empty (split r.value)) ≡ true

validate_rule-IsChecked :
    (ip : Addresses) (r : RoutingRule) → validate_rule ip r ≡ none → IsChecked r
unfolding validate_rule
validate_rule-IsChecked ip r h =
    let a = or_else-none _ _ h in
    let b = or_else-none _ _ a.1 in
    let c = or_else-none _ _ b.1 in
    let d = or_else-none _ _ c.1 in
    record {
      known_type = check-none _ _ a.0;
      known_dataset = b.0;
      known_action = check-none _ _ c.0;
      has_value = check-none _ _ d.0;
    }

values_field-some : (r : RoutingRule) → check_dataset r ≡ none → values_field r ≢ none
unfolding values_field ext_file check_dataset
values_field-some r h = ground arith

rule_to_field-some : (r : RoutingRule) → IsChecked r → rule_to_field r ≢ none
unfolding rule_to_field any_of
rule_to_field-some r h = ground (arith, values_field-some r h.known_dataset, h.known_type)

-- The action of a rule is where its field sends.
rule_to_field-tag :
    (r : RoutingRule) (f : Field) → rule_to_field r ≡ some f → f.outbound_tag ≡ r.action
unfolding rule_to_field
rule_to_field-tag r f h = ground arith

abbrev IsServed : Field → Type 0
IsServed f = one_of f.outbound_tag actions ≡ true

abbrev PassedAll : Addresses → List RoutingRule → Type 0
PassedAll ip rules = All (λ r. validate_rule ip r ≡ none) rules

rules_fit-PassedAll :
    (ip : Addresses) (rules : List RoutingRule) → rules_fit ip rules ≡ true → PassedAll ip rules
unfolding rules_fit
rules_fit-PassedAll ip [] h = tt
rules_fit-PassedAll ip (r ∷ rs) h = elim (Option-cases (validate_rule ip r)) [
  | inl e ↦ (e, rules_fit-PassedAll ip rs (rw (e, rules_fit) at h))
  | inr (p, e) ↦ absurd (cc (rw (e, rules_fit) at h))
]

-- The fields of rules that were checked, before `last`.
fields_then-IsServed :
    (ip : Addresses) (last : List Field) (rules : List RoutingRule)
    → PassedAll ip rules
    → All IsServed last
    → (fs : List Field) × ((fields_then last rules ≡ some fs) × All IsServed fs)
unfolding fields_then cons_field
fields_then-IsServed ip last [] h l = (last, (refl, l))
fields_then-IsServed ip last (r ∷ rs) h l =
    let (fs, (e, served)) = fields_then-IsServed ip last rs h.1 l in
    let c = validate_rule-IsChecked ip r h.0 in
    let (gs, (q, t)) =
      turn r.enabled (rule_to_field r) (rule_to_field-some r c) (tags c) fs served in
    (gs, (ap (cons_field r.enabled (rule_to_field r)) e ∙ q, t))
  where
    tags : IsChecked r → (f : Field) → rule_to_field r ≡ some f → IsServed f
    tags c f q = subst (λ t. one_of t actions ≡ true) (sym (rule_to_field-tag r f q)) c.known_action

    turn :
        (b : Bool) (o : Option Field)
        → o ≢ none
        → ((f : Field) → o ≡ some f → IsServed f)
        → (fs : List Field) → All IsServed fs
        → (gs : List Field) × ((cons_field b o (some fs) ≡ some gs) × All IsServed gs)
    turn false o n t fs s = (fs, (refl, s))
    turn true none n t fs s = absurd (n refl)
    turn true (some f) n t fs s = (f ∷ fs, (refl, (t f refl, s)))

PassedAll-in_order :
    (ip : Addresses) (rules : List RoutingRule) → PassedAll ip rules → PassedAll ip (in_order rules)
unfolding in_order
PassedAll-in_order ip rules h = All-of _ (sort _ rules) (λ r m. All-mem _ h (mem-sort _ r rules m))

-- A ruleset that passed `validate_routing` is translated without an exception, and every rule that
-- comes of it sends to one of the outbounds `direct`, `proxy` and `block`.
pub validate_routing-served :
    (ip : Addresses) (rules : List RoutingRule) (default_action : String)
    → validate_routing ip rules default_action ≡ true
    → (fs : List Field) × ((rules_to_xray rules default_action ≡ some fs)
        × All (λ f. one_of f.outbound_tag actions ≡ true) fs)
unfolding validate_routing rules_to_xray any_of
validate_routing-served ip rules default_action h =
    let known : one_of default_action actions ≡ true = ground arith in
    let fit : rules_fit ip rules ≡ true = ground arith in
    let passed = PassedAll-in_order ip rules (rules_fit-PassedAll ip rules fit) in
    let (fs, (e, served)) =
      fields_then-IsServed ip (catch_all default_action ∷ []) (in_order rules) passed (known, tt) in
    (private_rule ∷ fs, (rw (e, rules_to_xray) refl, (direct_known, served)))
  where
    direct_known : one_of "direct" actions ≡ true
    direct_known = refl

-- xray takes the first rule that matches; `hits` says which rules match a connection.
unfoldable pub route : (Field → Bool) → List Field → Option String
route hits [] = none
route hits (f ∷ fs) = if hits f then some f.outbound_tag else route hits fs

-- What one rule decides: nothing where it is off or does not match.
decide : (Field → Bool) → Bool → Option Field → Option String → Option String
decide hits false f rest = rest
decide hits true none rest = none
decide hits true (some f) rest = if hits f then some f.outbound_tag else rest

-- The operator's reading: the first of the enabled rules that matches, by position, else the default.
unfoldable pub first_action : (Field → Bool) → String → List RoutingRule → Option String
unfolding decide route
first_action hits default_action [] = route hits (catch_all default_action ∷ [])
first_action hits default_action (r ∷ rs) =
    decide hits r.enabled (rule_to_field r) (first_action hits default_action rs)

route-fields_then :
    (hits : Field → Bool) (default_action : String) (rules : List RoutingRule) (fs : List Field)
    → fields_then (catch_all default_action ∷ []) rules ≡ some fs
    → route hits fs ≡ first_action hits default_action rules
unfolding fields_then cons_field route first_action decide
route-fields_then hits default_action [] fs h = sym (ap (route hits) (eq_of_some h))
route-fields_then hits default_action (r ∷ rs) fs h =
    turn r.enabled (rule_to_field r) (fields_then (catch_all default_action ∷ []) rs) fs h
      (route-fields_then hits default_action rs)
  where
    turn :
        (b : Bool) (o : Option Field) (rest : Option (List Field)) (fs : List Field)
        → cons_field b o rest ≡ some fs
        → ((gs : List Field) → rest ≡ some gs → route hits gs ≡ first_action hits default_action rs)
        → route hits fs ≡ decide hits b o (first_action hits default_action rs)
    turn false o rest fs h ih = ih fs h
    turn true none rest fs h ih = absurd (cc h)
    turn true (some f) none fs h ih = absurd (cc h)
    turn true (some f) (some gs) fs h ih =
        sym (ap (route hits) (eq_of_some h))
        ∙ ap (λ t. if hits f then some f.outbound_tag else t) (ih gs refl)

-- The rules are the private one, and then what decides as the operator reads them.
pub rules_to_xray-route :
    (hits : Field → Bool) (rules : List RoutingRule) (default_action : String) (fs : List Field)
    → rules_to_xray rules default_action ≡ some fs
    → (gs : List Field) × ((fs ≡ private_rule ∷ gs)
        × (route hits gs ≡ first_action hits default_action (in_order rules)))
unfolding rules_to_xray
rules_to_xray-route hits rules default_action fs h =
    turn (fields_then (catch_all default_action ∷ []) (in_order rules)) refl h
  where
    turn :
        (o : Option (List Field))
        → fields_then (catch_all default_action ∷ []) (in_order rules) ≡ o
        → ◌≡◌ {A = Option (List Field)}
            (elim o [ none ↦ none | some gs ↦ some (private_rule ∷ gs) ])
            (some fs)
        → (gs : List Field) × ((fs ≡ private_rule ∷ gs)
            × (route hits gs ≡ first_action hits default_action (in_order rules)))
    turn none e q = absurd (cc q)
    turn (some gs) e q =
        (gs, (sym (eq_of_some q), route-fields_then hits default_action (in_order rules) gs e))
