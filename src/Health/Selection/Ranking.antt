-- ===== src/Health/Selection/Ranking.antt =====
-- health/selection.py: what `ranked_nodes` and `best_node` return.
use mathlib.Core.List.{Memᴰ, Perm}
use mathlib.Core.List.Memᴰ
use v2pi.Base.{
  ℕ, ◌≡◌, ◌≢◌, ◌↔◌, ◌≤◌, ◌+◌, refl, arith, Bool, true, false, not, ◌&&◌, Option, none, some, List,
  [], ◌∷◌, keep, ◌==◌, keep-mem, mem-keep, Bool-cases, inl, inr, any_of-false, any_of-false_of,
  id_eq, id_eq_iff, subst, eq_of_some, sym, ◌∙◌,
}
use v2pi.Base.Int.{eq_ℤ}
use v2pi.Base.Sort.{Descends, IsRanking, sort-perm, sort-Descends, sort_stable, sort-mem, mem-sort}
use v2pi.Node.{Node}
use v2pi.Health.{NodeHealth, find_health}
use v2pi.Health.Selection.{
  Rank, Query, rank_key, rank_lt, above, eligible, keep_fresh, keep_alive, ranked_nodes, best_node,
  alive, health_fresh, excluded, first,
}

rank_lt-asym : (a b : Rank) → rank_lt a b ≡ true → rank_lt b a ≡ false
unfolding rank_lt
rank_lt-asym a b h = ground arith

rank_lt-not_trans : (a b c : Rank) → rank_lt b a ≡ false → rank_lt c b ≡ false → rank_lt c a ≡ false
unfolding rank_lt
rank_lt-not_trans a b c h k = ground arith

pub above-IsRanking : (q : Query) → IsRanking (above q)
unfolding above
above-IsRanking q = record {
  asym = λ a b. rank_lt-asym _ _;
  not_trans = λ a b c. rank_lt-not_trans _ _ _;
}

-- There is a snapshot, with a stamp at most `ttl` before `now`.
abbrev pub CheckedWithin : Option NodeHealth → ℕ → ℕ → Type 0
CheckedWithin o now ttl =
    (h : NodeHealth) × (t : ℕ) × (o ≡ some h) × (h.checked_at ≡ some t) × (now ≤ t + ttl)

-- What makes a node a candidate, in words of its own row and its health row.
pub record IsEligible (q : Query) (n : Node) : Type 0 where
  pub not_stale : n.stale ≡ false
  pub not_excluded : n.id ≢ q.exclude_id
  pub not_listed : (i : ℕ) → Memᴰ i q.exclude_ids → n.id ≢ some i
  pub fresh :
      (ttl : ℕ) → q.freshness_ttl ≡ some ttl → CheckedWithin (find_health q.health n.id) q.now ttl
  pub lives : q.require_alive ≡ true → alive (find_health q.health n.id) ≡ true

id_eq-false : {a b : Option ℕ} → a ≢ b → id_eq a b ≡ false
id_eq-false {a} {b} ne = elim (Bool-cases (id_eq a b)) [
  | inl e ↦ absurd (ne ((id_eq_iff a b).0 e))
  | inr e ↦ e
]

-- `n.id not in {exclude_id, *exclude_ids}`, read both ways.
not-excluded :
    (q : Query) (n : Node)
    → (excluded q n ≡ false)
      ↔ ((n.id ≢ q.exclude_id) × ((i : ℕ) → Memᴰ i q.exclude_ids → n.id ≢ some i))
unfolding excluded
not-excluded q n = (
  λ h. (
    λ e. cc (
      any_of-false (id_eq n.id) _ h q.exclude_id (Memᴰ.head refl),
      (id_eq_iff n.id q.exclude_id).1 e,
    ),
    λ i m e. cc (
      any_of-false (id_eq n.id) _ h (some i) (Memᴰ.tail (Memᴰ.map some m)),
      (id_eq_iff n.id (some i)).1 e,
    ),
  ),
  λ r. any_of-false_of (id_eq n.id) _ λ a m. elim (Memᴰ.cases_cons m) [
    | inl e ↦ id_eq-false (λ p. r.0 (p ∙ e))
    | inr later ↦
        let (i, mi, e) = Memᴰ.of_map some q.exclude_ids later in
        id_eq-false (λ p. r.1 i mi (p ∙ sym e))
  ],
)

pub fresh_iff :
    (o : Option NodeHealth) (now ttl : ℕ)
    → (health_fresh o now ttl ≡ true) ↔ CheckedWithin o now ttl
unfolding health_fresh
fresh_iff none now ttl = (λ h. cc, λ r. cc (r.2))
fresh_iff (some h) now ttl =
    (stamped h.checked_at refl, λ r. aged r.1 (cc (eq_of_some r.2, r.3)) r.4)
  where
    stamped :
        (c : Option ℕ)
        → h.checked_at ≡ c
        → health_fresh (some h) now ttl ≡ true
        → CheckedWithin (some h) now ttl
    stamped none e f = ground arith
    stamped (some t) e f = (h, t, refl, e, ground arith)

    aged : (t : ℕ) → h.checked_at ≡ some t → now ≤ t + ttl → health_fresh (some h) now ttl ≡ true
    aged t e le = ground arith

keep_fresh-mem :
    (q : Query) (ttl : Option ℕ) (n : Node) (nodes : List Node)
    → Memᴰ n (keep_fresh q ttl nodes) ↔ (
        Memᴰ n nodes × ((t : ℕ) → ttl ≡ some t → CheckedWithin (find_health q.health n.id) q.now t))
unfolding keep_fresh
keep_fresh-mem q none n nodes = (λ m. (m, λ t e. cc), λ r. r.0)
keep_fresh-mem q (some ttl) n nodes = (
  λ m.
      let r = keep-mem _ n nodes m in
      (
        r.0,
        λ t e.
            subst (λ k. CheckedWithin (find_health q.health n.id) q.now k) (eq_of_some e)
              ((fresh_iff _ _ _).0 r.1),
      ),
  λ r. mem-keep _ r.0 ((fresh_iff _ _ _).1 (r.1 ttl refl)),
)

keep_alive-mem :
    (q : Query) (b : Bool) (n : Node) (nodes : List Node)
    → Memᴰ n (keep_alive q b nodes)
      ↔ (Memᴰ n nodes × (b ≡ true → alive (find_health q.health n.id) ≡ true))
unfolding keep_alive
keep_alive-mem q false n nodes = (λ m. (m, λ e. cc), λ r. r.0)
keep_alive-mem q true n nodes =
    (λ m. let r = keep-mem _ n nodes m in (r.0, λ e. r.1), λ r. mem-keep _ r.0 (r.1 refl))

usable_iff :
    (q : Query) (n : Node)
    → ((not n.stale && not (excluded q n)) ≡ true) ↔ ((n.stale ≡ false) × (excluded q n ≡ false))
usable_iff q n = ground arith

-- The nodes that are ranked are the candidates of the pool, and all of them.
pub eligible-mem :
    (q : Query) (n : Node) (nodes : List Node)
    → Memᴰ n (eligible q nodes) ↔ (Memᴰ n nodes × IsEligible q n)
unfolding eligible
eligible-mem q n nodes = (
  λ m.
      let (m', lives) = (keep_alive-mem q q.require_alive n _).0 m in
      let (m'', fresh) = (keep_fresh-mem q q.freshness_ttl n _).0 m' in
      let (pooled, usable) = keep-mem _ n nodes m'' in
      let (live_row, outside) = (usable_iff q n).0 usable in
      let (ne, nl) = (not-excluded q n).0 outside in
      (
        pooled,
        record {
          not_stale = live_row;
          not_excluded = ne;
          not_listed = nl;
          fresh = fresh;
          lives = lives;
        },
      ),
  λ r.
      let e = r.1 in
      (keep_alive-mem q q.require_alive n _).1 (
        (keep_fresh-mem q q.freshness_ttl n _).1 (
          mem-keep _ r.0 (
              (usable_iff q n).1
                (e.not_stale, (not-excluded q n).1 (e.not_excluded, e.not_listed))),
          e.fresh,
        ),
        e.lives,
      ),
)

abbrev pub rank_eq : Rank → Rank → Bool
rank_eq (t, c, l) (t', c', l') = t == t' && (c == c' && eq_ℤ l l')

rank_eq_tied : (r a b : Rank) → rank_eq r a ≡ true → rank_eq r b ≡ true → rank_lt b a ≡ false
unfolding rank_lt
rank_eq_tied r a b h k = ground arith

-- The nodes of one rank.
abbrev pub tied_at : Query → Rank → Node → Bool
tied_at q r n = rank_eq r (rank_key (find_health q.health n.id) q.max_fail_count)

-- `ranked_nodes` rearranges the candidates, puts none above one that stands before it, and keeps
-- the pool's order among those whose ranks are equal.
pub ranked_nodes_lem :
    (q : Query) (nodes : List Node)
    → Perm (ranked_nodes q nodes) (eligible q nodes)
      × Descends (above q) (ranked_nodes q nodes)
      × ((r : Rank)
          → keep (tied_at q r) (ranked_nodes q nodes) ≡ keep (tied_at q r) (eligible q nodes))
unfolding ranked_nodes
ranked_nodes_lem q nodes = (
  sort-perm (above q) (eligible q nodes),
  sort-Descends (above q) (above-IsRanking q) (eligible q nodes),
  λ r.
      sort_stable (above q) (tied_at q r) (eligible q nodes)
        (λ a b h k. unfold above in rank_eq_tied r _ _ h k),
)

pub ranked_nodes-mem :
    (q : Query) (nodes : List Node) (n : Node)
    → Memᴰ n (ranked_nodes q nodes)
    → Memᴰ n (eligible q nodes)
unfolding ranked_nodes
ranked_nodes-mem q nodes n m = mem-sort (above q) n (eligible q nodes) m

pub mem-ranked_nodes :
    (q : Query) (nodes : List Node) (n : Node)
    → Memᴰ n (eligible q nodes)
    → Memᴰ n (ranked_nodes q nodes)
unfolding ranked_nodes
mem-ranked_nodes q nodes n m = sort-mem (above q) m

first-Descends :
    (q : Query) (n : Node) (l : List Node)
    → Descends (above q) l
    → first l ≡ some n
    → Memᴰ n l × ((m : Node) → Memᴰ m l → above q m n ≡ false)
first-Descends q n [] d e = cc
first-Descends q n (x ∷ l) d e = (
  Memᴰ.head (sym (eq_of_some e)),
  λ m r. elim (Memᴰ.cases_cons r) [
    | inl h ↦ irreflexive (h ∙ eq_of_some e)
    | inr later ↦ subst (λ k. above q m k ≡ false) (eq_of_some e) (d.0 m later)
  ],
)
  where
    irreflexive : {m : Node} → m ≡ n → above q m n ≡ false
    irreflexive {m} h = elim (Bool-cases (above q m n)) [
      | inl up ↦ rw h ((above-IsRanking q).asym n n (rw h at up))
      | inr no_up ↦ no_up
    ]

-- No candidate of the pool is above the best node, which is one of them; and there is a best node
-- whenever there is a candidate.
pub best_node_lem :
    (q : Query) (nodes : List Node)
    → ((n : Node)
        → best_node q nodes ≡ some n
        → Memᴰ n nodes
          × IsEligible q n
          × ((m : Node) → Memᴰ m nodes → IsEligible q m → above q m n ≡ false))
      × (best_node q nodes ≡ none → (m : Node) → Memᴰ m nodes → ¬ IsEligible q m)
unfolding best_node
best_node_lem q nodes = (
  λ n e.
      let (m, top) = first-Descends q n (ranked_nodes q nodes) (ranked_nodes_lem q nodes).1 e in
      let (pooled, good) = (eligible-mem q n nodes).0 (ranked_nodes-mem q nodes n m) in
      (
        pooled,
        good,
        λ k mk ek. top k (mem-ranked_nodes q nodes k ((eligible-mem q k nodes).1 (mk, ek))),
      ),
  λ e m mm em.
      not-mem (ranked_nodes q nodes) e m
        (mem-ranked_nodes q nodes m ((eligible-mem q m nodes).1 (mm, em))),
)
  where
    not-mem : (l : List Node) → first l ≡ none → (m : Node) → Memᴰ m l → ⊥
    not-mem [] e m r = elim r [ ]
    not-mem (x ∷ l) e m r = cc
