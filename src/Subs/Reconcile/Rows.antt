-- ===== src/Subs/Reconcile/Rows.antt =====
-- subs/reconcile.py: what the two loops of a merge do to the rows of one id.
use mathlib.Core.List.{Memᴰ}
use v2pi.Base.{
  ℕ, ◌+◌, ◌≡◌, ◌≤◌, refl, sym, ap, ◌∙◌, arith, Bool, true, false, not, ◌&&◌, ◌||◌, ◌==◌, id_eq,
  id_eq_iff, ==_iff, Option, none, some, eq_of_some, List, [], ◌∷◌, keep, any_of, length, All,
  All-mem, All-append, All-map, All-keep, any_of-append, any_of-map, Bool-cases, inl, inr,
  if◌then◌else◌,
}
use v2pi.Node.{Node}
use v2pi.Subs.Nodes.{
  Table, add_node, update_node, mark_stale, delete_node, same_identity, get_node_by_identity,
}
use v2pi.Subs.Reconcile.{
  Job, Merge, Sweep, Gaps, weakens_active, next_row, fresh_row, merge_known, merge_one, merge_all,
  sweep_one, sweep_all,
}

-- A row of node `a`, if it is one, has the property.
abbrev pub Of : ℕ → (Node → Type 0) → Node → Type 0
Of a P r = r.id ≡ some a → P r

-- `a` is an id that has been given out, and each of its rows has the property.
pub record IsOnly (a : ℕ) (P : Node → Type 0) (t : Table) : Type 0 where
  pub given : a ≤ t.last_id
  pub every : All (Of a P) t.rows

abbrev pub has_row : ℕ → Table → Bool
has_row a t = any_of (λ r. id_eq r.id (some a)) t.rows

-- The second loop deletes the row.
abbrev pub doomed : Job → Gaps → List Node → Node → Bool
doomed job gaps parsed n =
    not (any_of (same_identity n) parsed)
    && (not (length parsed == 0)
        && (not (gaps.anomalous && (not gaps.confirmed || not n.stale))
            && not (id_eq n.id job.active_node_id)))

-- The lookup finds a row of the table, and one of the subscription.
pub get_node_by_identity-mem :
    (sub : ℕ) (p : Node) (rows : List Node) (cur : Node)
    → get_node_by_identity sub p rows ≡ some cur
    → Memᴰ cur rows × (cur.subscription_id ≡ some sub)
unfolding get_node_by_identity
get_node_by_identity-mem sub p [] cur e = cc
get_node_by_identity-mem sub p (r ∷ rows) cur e =
    elim (Bool-cases (id_eq r.subscription_id (some sub) && same_identity r p)) [
      | inl hit ↦
          let q : r ≡ cur = eq_of_some (rw hit at e) in
          (
            Memᴰ.head (sym q),
            ap (λ n. n.subscription_id) (sym q)
                ∙ (id_eq_iff r.subscription_id (some sub)).0 (ground arith),
          )
      | inr miss ↦
          let m = get_node_by_identity-mem sub p rows cur (rw miss at e) in (Memᴰ.tail m.0, m.1)
    ]

module _ (a : ℕ) (P : Node → Type 0) where
  pub add_node-IsOnly : (n : Node) (t : Table) → IsOnly a P t → IsOnly a P (add_node n t)
  unfolding add_node
  add_node-IsOnly n t h = record {
    given = omega (arith, h.given);
    every =
        All-append (Of a P) t.rows _ h.every
          ((λ e. absurd (omega (arith, h.given, eq_of_some e))), tt);
  }

  pub update_node-IsOnly :
      (n : Node) (t : Table) → Of a P n → IsOnly a P t → IsOnly a P (update_node n t)
  unfolding update_node
  update_node-IsOnly n t p h = record {
    given = h.given;
    every = All-map (Of a P) _ t.rows (λ r m q. write r q) h.every;
  }
    where
      write : (r : Node) → Of a P r → Of a P (if id_eq r.id n.id then n else r)
      write r q = elim (Bool-cases (id_eq r.id n.id)) [ inl e ↦ rw e p | inr e ↦ rw e q ]

  pub mark_stale-IsOnly :
      (i : Option ℕ) (b : Bool) (t : Table)
      → (i ≡ some a → (r : Node) → P r → P (record r { stale = b }))
      → IsOnly a P t
      → IsOnly a P (mark_stale i b t)
  unfolding mark_stale
  mark_stale-IsOnly i b t step h = record {
    given = h.given;
    every = All-map (Of a P) _ t.rows (λ r m q. mark r q) h.every;
  }
    where
      mark : (r : Node) → Of a P r → Of a P (if id_eq r.id i then record r { stale = b } else r)
      mark r q = elim (Bool-cases (id_eq r.id i)) [
        | inl e ↦ rw e (λ s. step (sym ((id_eq_iff r.id i).0 e) ∙ s) r (q s))
        | inr e ↦ rw e q
      ]

  pub delete_node-IsOnly : (i : Option ℕ) (t : Table) → IsOnly a P t → IsOnly a P (delete_node i t)
  unfolding delete_node
  delete_node-IsOnly i t h = record { given = h.given; every = All-keep (Of a P) _ t.rows h.every }

-- No write but a deletion changes which ids there are; an added row has a new one.
module _ (a : ℕ) where
  pub add_node-has_row :
      (n : Node) (t : Table) → a ≤ t.last_id → has_row a (add_node n t) ≡ has_row a t
  unfolding add_node any_of
  add_node-has_row n t h = rw any_of-append (ground (arith, h, ==_iff (t.last_id + 1) a))

  pub update_node-has_row : (n : Node) (t : Table) → has_row a (update_node n t) ≡ has_row a t
  unfolding update_node
  update_node-has_row n t = any_of-map (λ r. id_eq r.id (some a)) _ t.rows same
    where
      same : (r : Node) → id_eq (if id_eq r.id n.id then n else r).id (some a) ≡ id_eq r.id (some a)
      same r = ground (arith, id_eq_iff r.id n.id)

  pub mark_stale-has_row :
      (i : Option ℕ) (b : Bool) (t : Table) → has_row a (mark_stale i b t) ≡ has_row a t
  unfolding mark_stale
  mark_stale-has_row i b t = any_of-map (λ r. id_eq r.id (some a)) _ t.rows same
    where
      same :
          (r : Node)
          → id_eq (if id_eq r.id i then record r { stale = b } else r).id (some a)
            ≡ id_eq r.id (some a)
      same r = ground arith

  dropped :
      (i : Option ℕ) (rows : List Node)
      → any_of (λ r. id_eq r.id (some a)) (keep (λ r. not (id_eq r.id i)) rows)
        ≡ (any_of (λ r. id_eq r.id (some a)) rows && not (id_eq i (some a)))
  unfolding any_of keep
  dropped i [] = refl
  dropped i (r ∷ rows) =
      ground
        (arith, dropped i rows, id_eq_iff r.id i, id_eq_iff r.id (some a), id_eq_iff i (some a))

  pub delete_node-has_row :
      (i : Option ℕ) (t : Table)
      → has_row a (delete_node i t) ≡ (has_row a t && not (id_eq i (some a)))
  unfolding delete_node
  delete_node-has_row i t = dropped i t.rows

add_node-last_id : (a : ℕ) (n : Node) (t : Table) → a ≤ t.last_id → a ≤ (add_node n t).last_id
unfolding add_node
add_node-last_id a n t h = omega (arith, h)

update_node-last_id : (a : ℕ) (n : Node) (t : Table) → a ≤ t.last_id → a ≤ (update_node n t).last_id
unfolding update_node
update_node-last_id a n t h = h

module _ (job : Job) (a : ℕ) where
  merge_one-has_row :
      (pos : ℕ) (p : Node) (m : Merge)
      → a ≤ m.table.last_id
      → (has_row a (merge_one job pos p m).table ≡ has_row a m.table)
        × (a ≤ (merge_one job pos p m).table.last_id)
  unfolding merge_one merge_known
  merge_one-has_row pos p m h = go (get_node_by_identity job.sub_id p m.table.rows) refl
    where
      go :
          (o : Option Node)
          → get_node_by_identity job.sub_id p m.table.rows ≡ o
          → (has_row a (merge_one job pos p m).table ≡ has_row a m.table)
            × (a ≤ (merge_one job pos p m).table.last_id)
      go none e =
          rw (e, merge_one)
            (
              add_node-has_row a (fresh_row job pos p) m.table h,
              add_node-last_id a (fresh_row job pos p) m.table h,
            )
      go (some cur) e =
          rw (e, merge_one)
            (elim (Bool-cases (weakens_active job cur (next_row job pos p cur))) [
              | inl q ↦ rw (q, merge_known) (refl, h)
              | inr q ↦
                  rw (q, merge_known)
                    (
                      update_node-has_row a (next_row job pos p cur) m.table,
                      update_node-last_id a (next_row job pos p cur) m.table h,
                    )
            ])

  pub merge_all-has_row :
      (pos : ℕ) (parsed : List Node) (m : Merge)
      → a ≤ m.table.last_id
      → has_row a (merge_all job pos parsed m).table ≡ has_row a m.table
  unfolding merge_all
  merge_all-has_row pos [] m h = refl
  merge_all-has_row pos (p ∷ parsed) m h =
      let (same, given) = merge_one-has_row pos p m h in
      merge_all-has_row (pos + 1) parsed (merge_one job pos p m) given ∙ same

  module _ (gaps : Gaps) (parsed : List Node) where
    sweep_one-has_row :
        (n : Node) (w : Sweep)
        → has_row a (sweep_one job gaps parsed n w).table
          ≡ (has_row a w.table && not (id_eq n.id (some a) && doomed job gaps parsed n))
    unfolding sweep_one
    sweep_one-has_row n w = elim (Bool-cases (any_of (same_identity n) parsed)) [
      | inl e ↦ rw e (ground arith)
      | inr e ↦ rw e (elim (Bool-cases (length parsed == 0)) [
        | inl e1 ↦ rw e1 (ground arith)
        | inr e1 ↦
            rw e1 (elim (Bool-cases (gaps.anomalous && (not gaps.confirmed || not n.stale))) [
              | inl e2 ↦ rw e2 (mark_stale-has_row a n.id true w.table ∙ ground arith)
              | inr e2 ↦ rw e2 (elim (Bool-cases (id_eq n.id job.active_node_id)) [
                | inl e3 ↦ rw e3 (mark_stale-has_row a n.id true w.table ∙ ground arith)
                | inr e3 ↦ rw e3 (delete_node-has_row a n.id w.table ∙ ground arith)
              ])
            ])
      ])
    ]

    pub sweep_all-has_row :
        (existing : List Node) (w : Sweep)
        → has_row a (sweep_all job gaps parsed existing w).table ≡ (
            has_row a w.table
            && not (any_of (λ n. id_eq n.id (some a) && doomed job gaps parsed n) existing))
    unfolding sweep_all any_of
    sweep_all-has_row [] w = ground arith
    sweep_all-has_row (n ∷ existing) w =
        sweep_all-has_row existing (sweep_one job gaps parsed n w)
        ∙ rw (sweep_one-has_row n w) (ground arith)

-- A property of the rows of `a` that the written rows and the stale mark keep.
module _ (job : Job) (a : ℕ) (P : Node → Type 0) where
  -- What the first loop asks of a row that it writes over `cur`.
  abbrev pub Rewrites : Type 0
  Rewrites =
      (pos : ℕ) (p cur : Node)
      → weakens_active job cur (next_row job pos p cur) ≡ false
      → cur.subscription_id ≡ some job.sub_id
      → cur.id ≡ some a
      → P cur
      → P (next_row job pos p cur)

  -- What the second loop asks of a row of the subscription that it marks.
  abbrev pub Marks : Node → Type 0
  Marks n = n.id ≡ some a → (r : Node) → P r → P (record r { stale = true })

  merge_one-IsOnly :
      Rewrites
      → (pos : ℕ) (p : Node) (m : Merge) → IsOnly a P m.table
      → IsOnly a P (merge_one job pos p m).table
  unfolding merge_one merge_known next_row
  merge_one-IsOnly step pos p m h = go (get_node_by_identity job.sub_id p m.table.rows) refl
    where
      go :
          (o : Option Node)
          → get_node_by_identity job.sub_id p m.table.rows ≡ o
          → IsOnly a P (merge_one job pos p m).table
      go none e = rw (e, merge_one) (add_node-IsOnly a P (fresh_row job pos p) m.table h)
      go (some cur) e =
          rw (e, merge_one)
            (elim (Bool-cases (weakens_active job cur (next_row job pos p cur))) [
              | inl weaker ↦ rw (weaker, merge_known) h
              | inr fine ↦
                  let (found, own) = get_node_by_identity-mem job.sub_id p m.table.rows cur e in
                  rw (fine, merge_known)
                    (update_node-IsOnly a P (next_row job pos p cur) m.table
                      (λ i. step pos p cur fine own i (All-mem (Of a P) h.every found i)) h)
            ])

  pub merge_all-IsOnly :
      Rewrites
      → (pos : ℕ) (parsed : List Node) (m : Merge) → IsOnly a P m.table
      → IsOnly a P (merge_all job pos parsed m).table
  unfolding merge_all
  merge_all-IsOnly step pos [] m h = h
  merge_all-IsOnly step pos (p ∷ parsed) m h =
      merge_all-IsOnly step (pos + 1) parsed (merge_one job pos p m)
        (merge_one-IsOnly step pos p m h)

  module _ (gaps : Gaps) (parsed : List Node) where
    sweep_one-IsOnly :
        (n : Node) (w : Sweep)
        → Marks n
        → IsOnly a P w.table
        → IsOnly a P (sweep_one job gaps parsed n w).table
    unfolding sweep_one
    sweep_one-IsOnly n w step h = elim (Bool-cases (any_of (same_identity n) parsed)) [
      | inl e ↦ rw e h
      | inr e ↦ rw e (elim (Bool-cases (length parsed == 0)) [
        | inl e1 ↦ rw e1 h
        | inr e1 ↦
            rw e1 (elim (Bool-cases (gaps.anomalous && (not gaps.confirmed || not n.stale))) [
              | inl e2 ↦ rw e2 (mark_stale-IsOnly a P n.id true w.table step h)
              | inr e2 ↦ rw e2 (elim (Bool-cases (id_eq n.id job.active_node_id)) [
                | inl e3 ↦ rw e3 (mark_stale-IsOnly a P n.id true w.table step h)
                | inr e3 ↦ rw e3 (delete_node-IsOnly a P n.id w.table h)
              ])
            ])
      ])
    ]

    pub sweep_all-IsOnly :
        (existing : List Node) (w : Sweep)
        → All Marks existing
        → IsOnly a P w.table
        → IsOnly a P (sweep_all job gaps parsed existing w).table
    unfolding sweep_all
    sweep_all-IsOnly [] w steps h = h
    sweep_all-IsOnly (n ∷ existing) w steps h =
        sweep_all-IsOnly existing (sweep_one job gaps parsed n w) steps.1
          (sweep_one-IsOnly n w steps.0 h)
