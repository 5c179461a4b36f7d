-- ===== src/Subs/Refresh/Protected.antt =====
-- subs/service.py: the protection of the active node through a whole refresh, its failures included.
use mathlib.Core.List.{Memᴰ}
use v2pi.Base.{
  ℕ, ◌≡◌, refl, sym, subst, Bool, true, false, id_eq, Bool-cases, inl, inr, String, Option, none,
  some, eq_of_some, List, [], ◌∷◌, All-mem, if◌then◌else◌,
}
use v2pi.Node.{Node}
use v2pi.Health.Failover.{int_setting}
use v2pi.Health.Liveness.{get_node}
use v2pi.Subs.Nodes.{update_node}
use v2pi.Subs.Reconcile
use v2pi.Subs.Reconcile.{Job, Counts, Identity, security_rank, reconcile}
use v2pi.Subs.Reconcile.Rows.{Of, IsOnly, update_node-IsOnly, delete_node-IsOnly}
use v2pi.Subs.Reconcile.Kept.{Protects, reconcile-keeps_active}
use v2pi.Subs.Refresh.{
  Store, Env, Restarted, raised, idle, refused, applied, row_of, kept_between, auto_switch_allowed,
  restart_active, in_place, by_switch, switch_or_next, still_there, drop_old, reapply, restore,
  settle, after_merge, joined, refresh_merge,
}

get_node-mem : (i : ℕ) (rows : List Node) (n : Node) → get_node i rows ≡ some n → Memᴰ n rows
unfolding get_node
get_node-mem i [] n e = absurd (cc e)
get_node-mem i (r ∷ rows) n e = elim (Bool-cases (id_eq r.id (some i))) [
  | inl hit ↦ Memᴰ.head (sym (eq_of_some (rw hit at e)))
  | inr miss ↦ Memᴰ.tail (get_node-mem i rows n (rw miss at e))
]

module _ (env : Env) (a k : ℕ)
    (quiet : (n : Node) (st : Store) → (env.apply_node n st).1.nodes ≡ st.nodes) where
  -- The rows of node `a` keep the protection.
  abbrev Good : Store → Type 0
  Good st = IsOnly a (Protects k) st.nodes

  applied-Good : (n : Node) (st : Store) → Good st → Good (env.apply_node n st).1
  applied-Good n st h = subst (IsOnly a (Protects k)) (sym (quiet n st)) h

  in_place-Good :
      (b : Bool) (old current : Option Node) (st : Store)
      → Good st
      → Good (in_place env b old current st).1
  unfolding in_place reapply
  in_place-Good false old current st h = h
  in_place-Good true old none st h = h
  in_place-Good true old (some n) st h = gate (kept_between old (some n))
    where
      gate : (b : Bool) → Good (if b then reapply n (env.apply_node n st) else (refused, st)).1
      gate true = applied-Good n st h
      gate false = h

  drop_old-Good :
      (id : Option ℕ) (n : Node) (b : Bool) (st : Store) → Good st → Good (drop_old id n (b, st)).1
  unfolding drop_old
  drop_old-Good none n b st h = h
  drop_old-Good (some i) n false st h = h
  drop_old-Good (some i) n true st h = delete_node-IsOnly a (Protects k) (some i) st.nodes h

  by_switch-Good :
      (id : Option ℕ) (o : Option Node) (next : Restarted × Store) (st : Store)
      → Good next.1
      → Good st
      → Good (by_switch env id o next st).1
  unfolding by_switch
  by_switch-Good id none next st g h = g
  by_switch-Good id (some n) next st g h =
      drop_old-Good id n (env.apply_node n st).0 (env.apply_node n st).1 (applied-Good n st h)

  still_there-Good :
      (id o : Option ℕ) (b : Bool) (old : Option Node) (st : Store)
      → Good st
      → Good (still_there env id o b old st).1
  unfolding still_there switch_or_next
  still_there-Good id none b old st h = in_place-Good b old (row_of id st) st h
  still_there-Good id (some r) b old st h = go (auto_switch_allowed id r st)
    where
      next : Restarted × Store
      next = in_place env b old (row_of id st) st

      go : (o : Option Bool) → Good (switch_or_next env id r o next st).1
      go none = h
      go (some false) = in_place-Good b old (row_of id st) st h
      go (some true) =
          by_switch-Good id (get_node r st.nodes.rows) next st
            (in_place-Good b old (row_of id st) st h) h

  restart_active-Good :
      (id o : Option ℕ) (b : Bool) (old : Option Node) (st : Store)
      → Good st
      → Good (restart_active env id o b old st).1
  unfolding restart_active
  restart_active-Good id o b old st h = go (int_setting st.active_node_id)
    where
      gate : (c : Bool) → Good (if c then still_there env id o b old st else (idle, st)).1
      gate true = still_there-Good id o b old st h
      gate false = h

      go :
          (s : Option (Option ℕ))
          → Good
              (elim s as (λ x. Restarted × Store) [
                | none ↦ (raised, st)
                | some current ↦
                    if id_eq current id then still_there env id o b old st else (idle, st)
              ]).1
      go none = h
      go (some current) = gate (id_eq current id)

  restore-Good :
      (sub : ℕ) (old : Option Node) (st : Store)
      → ((n : Node) → old ≡ some n → Of a (Protects k) n)
      → Good st
      → Good (restore sub old st)
  unfolding restore
  restore-Good sub none st f h = h
  restore-Good sub (some n) st f h = gate (id_eq n.subscription_id (some sub))
    where
      gate : (b : Bool) → Good (if b then record st { nodes = update_node n st.nodes } else st)
      gate true = update_node-IsOnly a (Protects k) n st.nodes (f n refl) h
      gate false = h

  settle-Good :
      (sub : ℕ) (old : Option Node) (r : Restarted) (st : Store)
      → ((n : Node) → old ≡ some n → Of a (Protects k) n)
      → Good st
      → Good (settle sub old (r, st)).1
  unfolding settle
  settle-Good sub old raised st f h = h
  settle-Good sub old idle st f h = h
  settle-Good sub old refused st f h = restore-Good sub old st f h
  settle-Good sub old (applied n true) st f h = h
  settle-Good sub old (applied n false) st f h = restore-Good sub old st f h

  abbrev with_merge : Reconcile.Store → Store → Store
  with_merge merged st = record st { nodes = merged.nodes; shrink = merged.shrink }

  after_merge-Good :
      ((s : Store) → (env.between s).nodes ≡ s.nodes)
      → (job : Job) (old : Option Node) (counts : Counts) (merged : Reconcile.Store) (st : Store)
      → ((n : Node) → old ≡ some n → Of a (Protects k) n)
      → IsOnly a (Protects k) merged.nodes
      → Good (after_merge env job old (counts, merged) st).1
  unfolding after_merge
  after_merge-Good still job old counts merged st f h = go counts.active_downgrade refl
    where
      go :
          (d : Option (String × String))
          → counts.active_downgrade ≡ d
          → Good (after_merge env job old (counts, merged) st).1
      go (some d) e = rw (e, after_merge) h
      go none e =
          rw (e, after_merge)
            (settle-Good job.sub_id old
              (restart_active env job.active_node_id (joined counts.active_replacement)
                counts.active_changed old (env.between (with_merge merged st))).0
              (restart_active env job.active_node_id (joined counts.active_replacement)
                counts.active_changed old (env.between (with_merge merged st))).1
              f
              (restart_active-Good job.active_node_id (joined counts.active_replacement)
                counts.active_changed old (env.between (with_merge merged st))
                (subst (IsOnly a (Protects k)) (sym (still (with_merge merged st))) h)))

  -- If every row of the active node, whose id has been given out, has at least the protection `k`,
  -- none has less after a refresh, be it refused, failed or ok, where neither the apply nor another
  -- thread writes to the table of nodes.
  pub refresh_merge-Protects :
      (hash : List Identity → String) (sub : ℕ) (profile : Option ℕ) (parsed : List Node)
      (st : Store)
      → ((s : Store) → (env.between s).nodes ≡ s.nodes)
      → int_setting st.active_node_id ≡ some (some a)
      → IsOnly a (Protects k) st.nodes
      → IsOnly a (Protects k) (refresh_merge hash env sub profile parsed st).1.nodes
  unfolding refresh_merge
  refresh_merge-Protects hash sub profile parsed st still active h =
      let job : Job = record {
        sub_id = sub;
        active_node_id = some a;
        default_profile_id = profile;
      } in
      let r = reconcile hash job parsed (record { nodes = st.nodes; shrink = st.shrink }) in
      rw (active, refresh_merge)
        (after_merge-Good still job (row_of (some a) st) r.0 r.1 st
          (λ n e i. All-mem (Of a (Protects k)) h.every (get_node-mem a st.nodes.rows n e) i)
          (reconcile-keeps_active hash job parsed (record { nodes = st.nodes; shrink = st.shrink })
            a k refl h).1)
