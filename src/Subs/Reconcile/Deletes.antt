-- ===== src/Subs/Reconcile/Deletes.antt =====
-- subs/reconcile.py: exactly which rows a merge deletes.
use mathlib.Core.List.{Memᴰ}
use v2pi.Base.{
  ℕ, ◌≡◌, refl, sym, ap, subst, ◌∙◌, arith, Bool, true, false, not, ◌&&◌, ◌||◌, ◌*◌, ◌==◌, leb,
  length, none, Option, str_eq, id_eq, id_eq_iff, String, some, List, any_of, any_of-true_of,
  any_of-false_of, any_of-witness, All-mem, Bool-cases, inl, inr, mem-keep,
}
use v2pi.Base.Sort.{sort-mem}
use v2pi.Node.{Node}
use v2pi.Subs.Nodes.{Table, same_identity, list_nodes_for_sub}
use v2pi.Subs.Reconcile.{
  Job, Store, Identity, reconcile, gaps_of, anomalous_shrink, shrink_fingerprint,
}
use v2pi.Subs.Reconcile.Rows.{IsOnly, Of, has_row, doomed}
use v2pi.Subs.Reconcile.Whole.{clean, reconcile-has_row, doomed_of, listed-mem}

mem-listed :
    (sub : ℕ) (t : Table) (n : Node)
    → Memᴰ n t.rows
    → n.subscription_id ≡ some sub
    → Memᴰ n (list_nodes_for_sub sub t)
unfolding list_nodes_for_sub
mem-listed sub t n m own = sort-mem _ (
    mem-keep (λ r. id_eq r.subscription_id (some sub)) m
      ((id_eq_iff n.subscription_id (some sub)).1 own))

-- The second loop deletes the row.
abbrev is_swept : (hash : List Identity → String) → Job → List Node → Store → Node → Bool
is_swept hash job parsed st n =
    id_eq n.subscription_id (some job.sub_id)
    && doomed job (gaps_of hash (clean parsed) (list_nodes_for_sub job.sub_id st.nodes) st.shrink)
        (clean parsed) n

-- The last refresh recorded this fingerprint.
abbrev pub was_recorded : Option String → String → Bool
was_recorded none fingerprint = false
was_recorded (some last) fingerprint = str_eq last fingerprint

-- The subscription's own row, which the feed, if it is not empty, no longer has, and which is not the
-- active node's; and the feed has at least half as many nodes as the subscription has rows, or its
-- fingerprint is the recorded one and the row is stale.
abbrev pub is_obsolete : (hash : List Identity → String) → Job → List Node → Store → Node → Bool
is_obsolete hash job parsed st n =
    let feed = clean parsed in
    let existing = list_nodes_for_sub job.sub_id st.nodes in
    id_eq n.subscription_id (some job.sub_id)
    && (not (any_of (same_identity n) feed)
        && (not (length feed == 0)
            && (not (id_eq n.id job.active_node_id)
                && (leb (length existing) (2 * length feed)
                    || (was_recorded st.shrink (shrink_fingerprint hash feed) && n.stale)))))

swept-obsolete :
    (hash : List Identity → String) (job : Job) (parsed : List Node) (st : Store) (n : Node)
    → is_swept hash job parsed st n ≡ is_obsolete hash job parsed st n
unfolding gaps_of anomalous_shrink
swept-obsolete hash job parsed st n = recorded st.shrink
  where
    feed : List Node
    feed = clean parsed

    existing : List Node
    existing = list_nodes_for_sub job.sub_id st.nodes

    recorded :
        (shrink : Option String)
        → (id_eq n.subscription_id (some job.sub_id)
            && doomed job (gaps_of hash feed existing shrink) feed n)
          ≡ (id_eq n.subscription_id (some job.sub_id)
              && (not (any_of (same_identity n) feed)
                  && (not (length feed == 0)
                      && (not (id_eq n.id job.active_node_id)
                          && (leb (length existing) (2 * length feed)
                              || (was_recorded shrink (shrink_fingerprint hash feed)
                                  && n.stale))))))
    recorded none = ground arith
    recorded (some last) = ground arith

module _ (hash : List Identity → String) (job : Job) (parsed : List Node) (st : Store) (a : ℕ)
    (n : Node) where
  doomed-obsolete :
      IsOnly a (λ r. r ≡ n) st.nodes
      → Memᴰ n st.nodes.rows
      → n.id ≡ some a
      → any_of (doomed_of hash job parsed st a) (list_nodes_for_sub job.sub_id st.nodes)
        ≡ is_swept hash job parsed st n
  doomed-obsolete h found i = elim (Bool-cases (is_swept hash job parsed st n)) [
    | inl e ↦
        any_of-true_of (doomed_of hash job parsed st a)
          (mem-listed job.sub_id st.nodes n found
            ((id_eq_iff n.subscription_id (some job.sub_id)).0 (ground arith)))
          (rw ((id_eq_iff n.id (some a)).1 i) (ground arith))
        ∙ sym e
    | inr e ↦
        any_of-false_of (doomed_of hash job parsed st a) (list_nodes_for_sub job.sub_id st.nodes)
          (λ r m. spared r m e)
        ∙ sym e
  ]
    where
      spared :
          (r : Node)
          → Memᴰ r (list_nodes_for_sub job.sub_id st.nodes)
          → is_swept hash job parsed st n ≡ false
          → doomed_of hash job parsed st a r ≡ false
      spared r m e =
          let (there, own) = listed-mem job.sub_id st.nodes r m in
          elim (Bool-cases (id_eq r.id (some a))) [
            | inl q ↦
                let same : r ≡ n =
                  All-mem (Of a (λ r. r ≡ n)) h.every there ((id_eq_iff r.id (some a)).0 q) in
                let owned =
                  (id_eq_iff n.subscription_id (some job.sub_id)).1
                    (ap (λ x. x.subscription_id) (sym same) ∙ own) in
                ap (doomed_of hash job parsed st a) same ∙ ground (arith, owned)
            | inr q ↦ rw q refl
          ]

  -- A refresh deletes a row that is there, and is the only one of its id, just if the subscription
  -- owns it, the feed is not empty and no longer has the node, the node is not the active one, and,
  -- where the feed has fewer than half as many nodes as the subscription has rows, the last refresh
  -- recorded the same fingerprint of its feed and the row was stale.
  pub reconcile-deletes :
      IsOnly a (λ r. r ≡ n) st.nodes
      → has_row a st.nodes ≡ true
      → has_row a (reconcile hash job parsed st).1.nodes ≡ not (is_obsolete hash job parsed st n)
  reconcile-deletes h there =
      let (r, (found, i)) = any_of-witness (λ r. id_eq r.id (some a)) st.nodes.rows there in
      let same : r ≡ n =
        All-mem (Of a (λ r. r ≡ n)) h.every found ((id_eq_iff r.id (some a)).0 i) in
      reconcile-has_row hash job parsed st a h.given
      ∙ rw there (
          ap not (
            doomed-obsolete h (subst (λ x. Memᴰ x st.nodes.rows) same found)
              (sym (ap (λ x. x.id) same) ∙ (id_eq_iff r.id (some a)).0 i)
            ∙ swept-obsolete hash job parsed st n))
