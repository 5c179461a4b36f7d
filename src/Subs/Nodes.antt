-- ===== src/Subs/Nodes.antt =====
-- nodes/store.py: the nodes table, as a refresh reads and writes it. A row is a `Node`; the store
-- normalizes what it reads, and the rows it holds were normalized when their nodes were made.
use v2pi.Base.{
  ℕ, ◌+◌, Bool, not, ◌&&◌, ◌||◌, ltb, ◌==◌, id_eq, get_or, str_eq, Option, none, some, List, [],
  ◌∷◌, ◌++◌, map, keep, if◌then◌else◌,
}
use v2pi.Base.Sort.{sort}
use v2pi.Node.{Node}
use v2pi.Health.{NodeHealth}

-- The rows in the order of their ids, the last id given out, and the rows of node_health.
pub record Table : Type 0 where
  pub rows : List Node
  pub last_id : ℕ
  pub health : List NodeHealth

unfoldable pub add_node : Node → Table → Table
add_node n t =
    let id = t.last_id + 1 in
    record t { rows = t.rows ++ record n { id = some id } ∷ []; last_id = id }

-- Every column of the row with the node's id is written.
unfoldable pub update_node : Node → Table → Table
update_node n t = record t { rows = map (λ r. if id_eq r.id n.id then n else r) t.rows }

unfoldable pub mark_stale : Option ℕ → Bool → Table → Table
mark_stale i stale t = record t {
  rows = map (λ r. if id_eq r.id i then record r { stale = stale } else r) t.rows;
}

-- The node's health row goes with it.
unfoldable pub delete_node : Option ℕ → Table → Table
delete_node i t = record t {
  rows = keep (λ r. not (id_eq r.id i)) t.rows;
  health = keep (λ h. not (id_eq (some h.node_id) i)) t.health;
}

-- `_identity(a) == _identity(b)`
unfoldable pub same_identity : Node → Node → Bool
same_identity a b =
    str_eq a.address b.address
    && (a.port == b.port
        && (str_eq a.uuid b.uuid
            && (str_eq a.path b.path && (str_eq a.sni b.sni && str_eq a.short_id b.short_id))))

-- The first row of the subscription with the identity of `p`.
unfoldable pub get_node_by_identity : ℕ → Node → List Node → Option Node
get_node_by_identity sub p [] = none
get_node_by_identity sub p (r ∷ rows) =
    let rest = get_node_by_identity sub p rows in
    if id_eq r.subscription_id (some sub) && same_identity r p then some r else rest

-- `ORDER BY position, id`
before : Node → Node → Bool
before a b =
    ltb a.position b.position || (a.position == b.position && ltb (get_or a.id 0) (get_or b.id 0))

unfoldable pub list_nodes_for_sub : ℕ → Table → List Node
unfolding before
list_nodes_for_sub sub t = sort before (keep (λ r. id_eq r.subscription_id (some sub)) t.rows)
