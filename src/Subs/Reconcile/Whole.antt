-- ===== src/Subs/Reconcile/Whole.antt =====
-- subs/reconcile.py: the loops' lemmas, put together for a whole merge.
use mathlib.Core.List.{Memᴰ}
use v2pi.Base.{
  ℕ, ◌≡◌, ◌≢◌, ◌≤◌, sym, ap, ◌∙◌, arith, Bool, false, not, ◌&&◌, id_eq, id_eq_iff, String, none,
  some, List, map, any_of, All, All-mem, Bool-cases, inl, inr, any_of-false_of, keep-mem,
}
use v2pi.Base.Sort.{mem-sort}
use v2pi.Node.{Node}
use v2pi.Subs.Nodes.{Table, list_nodes_for_sub}
use v2pi.Subs.Reconcile.{
  Job, Merge, Sweep, Store, Identity, merge_all, reconcile, reconcile_clean, gaps_of, dedupe,
  clamp_node_fields,
}
use v2pi.Subs.Reconcile.Rows.{
  IsOnly, Of, Marks, Rewrites, has_row, doomed, merge_all-IsOnly, sweep_all-IsOnly,
  merge_all-has_row, sweep_all-has_row,
}

-- The variables before the two loops.
abbrev merge_start : Store → Merge
merge_start st = record {
  table = st.nodes;
  added = 0;
  updated = 0;
  active_changed = false;
  active_downgrade = none;
}

abbrev sweep_start : Table → Sweep
sweep_start t = record { table = t; removed = 0; skipped = 0; active_vanished = false }

-- The feed as the loops read it.
abbrev pub clean : List Node → List Node
clean parsed = dedupe (map clamp_node_fields parsed)

module _ (hash : List Identity → String) (job : Job) (parsed : List Node) (st : Store) (a : ℕ) where
  pub reconcile-IsOnly :
      (P : Node → Type 0)
      → Rewrites job a P
      → All (Marks job a P) (list_nodes_for_sub job.sub_id st.nodes)
      → IsOnly a P st.nodes
      → IsOnly a P (reconcile hash job parsed st).1.nodes
  unfolding reconcile reconcile_clean
  reconcile-IsOnly P step marks h =
      let existing = list_nodes_for_sub job.sub_id st.nodes in
      let merged = merge_all job 0 (clean parsed) (merge_start st) in
      sweep_all-IsOnly job a P (gaps_of hash (clean parsed) existing st.shrink) (clean parsed)
        existing (sweep_start merged.table) marks
        (merge_all-IsOnly job a P step 0 (clean parsed) (merge_start st) h)

  pub reconcile-has_row :
      a ≤ st.nodes.last_id
      → has_row a (reconcile hash job parsed st).1.nodes ≡ (
          has_row a st.nodes
          && not (
              any_of
                (λ n.
                  id_eq n.id (some a)
                  && doomed job
                      (gaps_of hash
                        (clean parsed)
                        (list_nodes_for_sub job.sub_id st.nodes)
                        st.shrink)
                      (clean parsed)
                      n)
                (list_nodes_for_sub job.sub_id st.nodes)))
  unfolding reconcile reconcile_clean
  reconcile-has_row h =
      let existing = list_nodes_for_sub job.sub_id st.nodes in
      let merged = merge_all job 0 (clean parsed) (merge_start st) in
      sweep_all-has_row job a (gaps_of hash (clean parsed) existing st.shrink) (clean parsed)
        existing (sweep_start merged.table)
      ∙ ap
          (λ b.
            b
            && not (
                any_of
                  (λ n.
                    id_eq n.id (some a)
                    && doomed job (gaps_of hash (clean parsed) existing st.shrink) (clean parsed) n)
                  existing))
          (merge_all-has_row job a 0 (clean parsed) (merge_start st) h)

pub listed-mem :
    (sub : ℕ) (t : Table) (n : Node)
    → Memᴰ n (list_nodes_for_sub sub t)
    → Memᴰ n t.rows × (n.subscription_id ≡ some sub)
unfolding list_nodes_for_sub
listed-mem sub t n m =
    let (found, own) = keep-mem _ n t.rows (mem-sort _ n _ m) in
    (found, (id_eq_iff n.subscription_id (some sub)).0 own)

module _ (hash : List Identity → String) (job : Job) (parsed : List Node) (st : Store) (a : ℕ) where
  -- The second loop deletes the row, where it is one of `a`.
  abbrev pub doomed_of : Node → Bool
  doomed_of n =
      id_eq n.id (some a)
      && doomed job (gaps_of hash (clean parsed) (list_nodes_for_sub job.sub_id st.nodes) st.shrink)
          (clean parsed) n

  pub reconcile-spares :
      a ≤ st.nodes.last_id
      → ((n : Node) → Memᴰ n (list_nodes_for_sub job.sub_id st.nodes) → doomed_of n ≡ false)
      → has_row a (reconcile hash job parsed st).1.nodes ≡ has_row a st.nodes
  reconcile-spares h spared =
      let existing = list_nodes_for_sub job.sub_id st.nodes in
      reconcile-has_row hash job parsed st a h
      ∙ rw (any_of-false_of doomed_of existing spared) (ground arith)

  -- The row of `a` is the subscription's, or no row of the subscription is one of `a`.
  pub foreign-id :
      (n : Node)
      → n.subscription_id ≢ some job.sub_id
      → IsOnly a (λ r. r ≡ n) st.nodes
      → (r : Node) → Memᴰ r (list_nodes_for_sub job.sub_id st.nodes)
      → id_eq r.id (some a) ≡ false
  foreign-id n foreign h r m =
      let (found, own) = listed-mem job.sub_id st.nodes r m in
      elim (Bool-cases (id_eq r.id (some a))) [
        | inl e ↦
            let same : r ≡ n =
              All-mem (Of a (λ r. r ≡ n)) h.every found ((id_eq_iff r.id (some a)).0 e) in
            absurd (foreign (ap (λ r. r.subscription_id) (sym same) ∙ own))
        | inr e ↦ e
      ]
