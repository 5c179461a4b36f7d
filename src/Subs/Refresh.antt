-- ===== src/Subs/Refresh.antt =====
-- subs/service.py: a refresh after its fetch, from the parsed nodes to the re-applied tunnel. The merge
-- is one transaction; the apply that follows runs under `apply_lock`, so other threads may have moved
-- the tunnel in between.
pub mod Safety
pub mod Protected
use v2pi.Base.{
  ℕ, ◌==◌, Bool, true, false, not, ◌&&◌, id_eq, String, Option, none, some, List, [], ◌∷◌,
  if◌then◌else◌,
}
use v2pi.Settings.{Row, flag}
use v2pi.Node.{Node}
use v2pi.Health.Failover.{int_setting}
use v2pi.Health.Liveness.{get_node}
use v2pi.Subs.Nodes.{Table, update_node, delete_node}
use v2pi.Subs.Reconcile
use v2pi.Subs.Reconcile.{Job, Counts, Identity, security_kept, reconcile}

-- The tables that a refresh reads and writes.
pub record Store : Type 0 where
  pub active_node_id : Row
  pub subs_auto_switch : Row
  pub nodes : Table
  pub shrink : Option String

-- `apply_node`, and what other threads write between the merge and the lock.
pub record Env : Type 0 where
  pub apply_node : Node → Store → Bool × Store
  pub between : Store → Store

-- How `_restart_active` ends: with an exception, with nothing to apply, with a refusal, or with the
-- apply of a node, which is ok or not.
pub data Restarted : Type 0 where
  raised idle refused : Restarted
  applied : Node → Bool → Restarted

-- `store.get_node(id)`
abbrev pub row_of : Option ℕ → Store → Option Node
row_of none st = none
row_of (some i) st = get_node i st.nodes.rows

-- `security_kept` of nodes that may be missing: a missing node is not judged.
unfoldable pub kept_between : Option Node → Option Node → Bool
kept_between none new = true
kept_between (some old) none = true
kept_between (some old) (some new) = security_kept old new

-- The last lines of `_auto_switch_allowed`: no replacement, no switch.
allowed_rows : Option Node → Option Node → Bool
allowed_rows none none = false
allowed_rows none (some new) = true
allowed_rows (some old) none = false
allowed_rows (some old) (some new) = security_kept old new

-- `_auto_switch_allowed`; `none` is an exception.
unfoldable pub auto_switch_allowed : Option ℕ → ℕ → Store → Option Bool
unfolding allowed_rows
auto_switch_allowed active_id replacement st = elim (flag true st.subs_auto_switch) [
  | none ↦ none
  | some false ↦ some false
  | some true ↦ some (allowed_rows (row_of active_id st) (get_node replacement st.nodes.rows))
]

-- The node that was active goes once its replacement is applied.
drop_old : Option ℕ → Node → Bool × Store → Restarted × Store
drop_old none node (ok, st) = (applied node ok, st)
drop_old (some a) node (false, st) = (applied node false, st)
drop_old (some a) node (true, st) =
    (applied node true, record st { nodes = delete_node (some a) st.nodes })

reapply : Node → Bool × Store → Restarted × Store
reapply node (ok, st) = (applied node ok, st)

-- The second branch: the active row was changed in place.
in_place : Env → Bool → Option Node → Option Node → Store → Restarted × Store
unfolding reapply
in_place env false old_active current st = (idle, st)
in_place env true old_active none st = (idle, st)
in_place env true old_active (some node) st =
    if kept_between old_active (some node)
    then reapply node (env.apply_node node st)
    else (refused, st)

-- The first branch: the active row is gone, and there is a single replacement.
by_switch : Env → Option ℕ → Option Node → Restarted × Store → Store → Restarted × Store
unfolding drop_old
by_switch env active_id none next st = next
by_switch env active_id (some node) next st = drop_old active_id node (env.apply_node node st)

switch_or_next : Env → Option ℕ → ℕ → Option Bool → Restarted × Store → Store → Restarted × Store
unfolding by_switch
switch_or_next env active_id replacement none next st = (raised, st)
switch_or_next env active_id replacement (some false) next st = next
switch_or_next env active_id replacement (some true) next st =
    by_switch env active_id (get_node replacement st.nodes.rows) next st

-- Under the lock, with the tunnel where it was.
still_there : Env → Option ℕ → Option ℕ → Bool → Option Node → Store → Restarted × Store
unfolding switch_or_next in_place
still_there env active_id none changed old_active st =
    in_place env changed old_active (row_of active_id st) st
still_there env active_id (some replacement) changed old_active st =
    switch_or_next env active_id replacement (auto_switch_allowed active_id replacement st)
      (in_place env changed old_active (row_of active_id st) st) st

-- `_restart_active`
unfoldable pub restart_active :
    Env → Option ℕ → Option ℕ → Bool → Option Node → Store → Restarted × Store
unfolding still_there
restart_active env active_id replacement changed old_active st =
    elim (int_setting st.active_node_id) [
      | none ↦ (raised, st)
      | some current ↦
          if id_eq current active_id
          then still_there env active_id replacement changed old_active st
          else (idle, st)
    ]

-- How the refresh is recorded.
pub data Result : Type 0 where
  ok failed downgrade_refused : Result

abbrev joined : Option (Option ℕ) → Option ℕ
joined none = none
joined (some o) = o

-- The apply failed: the row of this subscription's active node goes back to what it was.
restore : ℕ → Option Node → Store → Store
restore sub_id none st = st
restore sub_id (some old) st =
    if id_eq old.subscription_id (some sub_id)
    then record st { nodes = update_node old st.nodes }
    else st

settle : ℕ → Option Node → Restarted × Store → Result × Store
unfolding restore
settle sub_id old_active (raised, st) = (failed, st)
settle sub_id old_active (idle, st) = (ok, st)
settle sub_id old_active (refused, st) = (failed, restore sub_id old_active st)
settle sub_id old_active (applied node true, st) = (ok, st)
settle sub_id old_active (applied node false, st) = (failed, restore sub_id old_active st)

after_merge : Env → Job → Option Node → Counts × Reconcile.Store → Store → Result × Store
unfolding settle
after_merge env job old_active (counts, merged) st =
    let st₁ = record st { nodes = merged.nodes; shrink = merged.shrink } in
    elim counts.active_downgrade [
      | some _ ↦ (downgrade_refused, st₁)
      | none ↦ settle job.sub_id old_active (
          restart_active env job.active_node_id (joined counts.active_replacement)
            counts.active_changed old_active (env.between st₁))
    ]

-- The part of `refresh` from the read of the active node on. `parsed` is capped and not empty, and the
-- subscription is the one that was fetched.
unfoldable pub refresh_merge :
    (List Identity → String) → Env → ℕ → Option ℕ → List Node → Store → Result × Store
unfolding after_merge
refresh_merge hash env sub_id profile parsed st = elim (int_setting st.active_node_id) [
  | none ↦ (failed, st)
  | some active_id ↦
      let job : Job = record {
        sub_id = sub_id;
        active_node_id = active_id;
        default_profile_id = profile;
      } in
      after_merge env job (row_of active_id st)
        (reconcile hash job parsed (record { nodes = st.nodes; shrink = st.shrink })) st
]
