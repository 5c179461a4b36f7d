-- ===== src/Subs/Reconcile/Kept.antt =====
-- subs/reconcile.py: what a merge may not do to the node that carries the tunnel, to the fields that
-- are the operator's, and to the nodes of other subscriptions.
use v2pi.Base.{
  ℕ, ◌≡◌, ◌≢◌, ◌≤◌, refl, sym, ap, ◌∙◌, arith, id_eq_iff, String, Option, some, List, All-of,
}
use v2pi.Node.{Node}
use v2pi.Subs.Nodes.{list_nodes_for_sub}
use v2pi.Subs.Reconcile.{
  Job, Store, Identity, security_rank, security_kept, weakens_active, next_row, reconcile,
}
use v2pi.Subs.Reconcile.Rows.{IsOnly, Marks, Rewrites, has_row}
use v2pi.Subs.Reconcile.Whole.{reconcile-IsOnly, reconcile-spares, foreign-id}

-- At least the protection `k`.
abbrev pub Protects : ℕ → Node → Type 0
Protects k r = k ≤ security_rank r.security

module _ (hash : List Identity → String) (job : Job) (parsed : List Node) (st : Store) (a : ℕ) where
  next_row-Protects : (k : ℕ) → job.active_node_id ≡ some a → Rewrites job a (Protects k)
  unfolding weakens_active next_row security_kept
  next_row-Protects k active pos p cur fine own i old =
      ground (arith, id_eq_iff cur.id job.active_node_id, i ∙ sym active)

  -- A refresh, whatever the feed, keeps a row of the active node where there is one, and if each row
  -- of that id, which is one that has been given out, had at least the protection `k`, each still
  -- has.
  pub reconcile-keeps_active :
      (k : ℕ)
      → job.active_node_id ≡ some a
      → IsOnly a (Protects k) st.nodes
      → (has_row a (reconcile hash job parsed st).1.nodes ≡ has_row a st.nodes)
        × IsOnly a (Protects k) (reconcile hash job parsed st).1.nodes
  reconcile-keeps_active k active h =
      let existing = list_nodes_for_sub job.sub_id st.nodes in
      (
        reconcile-spares hash job parsed st a h.given (λ n m. rw active (ground arith)),
        reconcile-IsOnly hash job parsed st a (Protects k) (next_row-Protects k active)
            (All-of (Marks job a (Protects k)) existing (λ n m i r q. q)) h,
      )

  -- If every row of an id, which has been given out, has this note and this tuning profile, a
  -- refresh leaves no row of the id with another, whatever the feed says.
  pub reconcile-keeps_operator :
      (note : String) (profile : Option ℕ)
      → IsOnly a (λ r. (r.note ≡ note) × (r.tuning_profile_id ≡ profile)) st.nodes
      → IsOnly a
          (λ r. (r.note ≡ note) × (r.tuning_profile_id ≡ profile))
          (reconcile hash job parsed st).1.nodes
  unfolding next_row
  reconcile-keeps_operator note profile h =
      let existing = list_nodes_for_sub job.sub_id st.nodes in
      let P : Node → Type 0 = λ r. (r.note ≡ note) × (r.tuning_profile_id ≡ profile) in
      reconcile-IsOnly hash job parsed st a P (λ pos p cur fine own i old. old)
        (All-of (Marks job a P) existing (λ n m i r q. q)) h

  -- A refresh of one subscription leaves a row of another subscription, or of none, where it was and
  -- as it was, if it is the only one of its id, which has been given out.
  pub reconcile-keeps_foreign :
      (n : Node)
      → n.subscription_id ≢ some job.sub_id
      → IsOnly a (λ r. r ≡ n) st.nodes
      → (has_row a (reconcile hash job parsed st).1.nodes ≡ has_row a st.nodes)
        × IsOnly a (λ r. r ≡ n) (reconcile hash job parsed st).1.nodes
  reconcile-keeps_foreign n foreign h =
      let existing = list_nodes_for_sub job.sub_id st.nodes in
      (
        reconcile-spares hash job parsed st a h.given
            (λ r m. rw (foreign-id hash job parsed st a n foreign h r m) refl),
        reconcile-IsOnly hash job parsed st a (λ r. r ≡ n)
            (λ pos p cur fine own i old.
              absurd (foreign (sym (ap (λ r. r.subscription_id) old) ∙ own)))
            (All-of (Marks job a (λ r. r ≡ n)) existing (λ r m i. absurd (
              cc (
                sym ((id_eq_iff r.id (some a)).1 i)
                ∙ foreign-id hash job parsed st a n foreign h r m))))
            h,
      )
