-- ===== src/Health/Failover/Decision.antt =====
-- health/failover.py, `decide`: when it names a node, and which.
use mathlib.Core.List.{Memᴰ}
use v2pi.Base.{ℕ, ◌≡◌, ◌≢◌, ◌≤◌, ◌+◌, refl, arith, true, false, is_some, Option, none, some, List}
use v2pi.Node.{Node}
use v2pi.Health.{NodeHealth, find_health}
use v2pi.Health.Selection.{best_node, above, health_fresh}
use v2pi.Health.Selection.Ranking.{IsEligible, CheckedWithin, fresh_iff, best_node_lem}
use v2pi.Health.Failover.{Config, standby_query, active_failing, still_within, decide}

-- The active node is known, has failed often enough by a recent snapshot, and the last switch lies
-- at least a cooldown back.
pub record IsDue (c : Config) (health : List NodeHealth) (now : ℕ) : Type 0 where
  pub active : is_some c.active_id ≡ true
  pub row : NodeHealth
  pub found : find_health health c.active_id ≡ some row
  pub failures : c.hysteresis ≤ row.fail_count
  pub recent : CheckedWithin (some row) now c.active_ttl
  pub cooled : (last : ℕ) → c.last_failover_at ≡ some last → last + c.cooldown ≤ now

failing_row :
    (c : Config) (health : List NodeHealth) (now : ℕ)
    → active_failing c health now ≡ true
    → (h : NodeHealth) × (find_health health c.active_id ≡ some h)
      × (c.hysteresis ≤ h.fail_count)
      × (health_fresh (some h) now c.active_ttl ≡ true)
unfolding active_failing
failing_row c health now f = go (find_health health c.active_id) refl
  where
    go :
        (o : Option NodeHealth)
        → find_health health c.active_id ≡ o
        → (h : NodeHealth) × (find_health health c.active_id ≡ some h)
          × (c.hysteresis ≤ h.fail_count)
          × (health_fresh (some h) now c.active_ttl ≡ true)
    go none e = ground arith
    go (some h) e = (h, e, ground arith, ground arith)

cooled_lem :
    (now : ℕ) (last : Option ℕ) (cooldown : ℕ)
    → still_within now last cooldown ≡ false
    → (l : ℕ) → last ≡ some l
    → l + cooldown ≤ now
cooled_lem now none cooldown h l e = cc
cooled_lem now (some k) cooldown h l e = ground arith

-- The gates that `decide` has passed where it names a node.
decide_gates :
    (c : Config) (health : List NodeHealth) (nodes : List Node) (now i : ℕ)
    → decide c health nodes now ≡ some i
    → (is_some c.active_id ≡ true)
      × (active_failing c health now ≡ true)
      × (still_within now c.last_failover_at c.cooldown ≡ false)
unfolding decide
decide_gates c health nodes now i h = ground arith

decide_best :
    (c : Config) (health : List NodeHealth) (nodes : List Node) (now i : ℕ)
    → decide c health nodes now ≡ some i
    → (n : Node) × (best_node (standby_query c health now (some c.hysteresis)) nodes ≡ some n)
      × (n.id ≡ some i)
unfolding decide
decide_best c health nodes now i h =
    go (best_node (standby_query c health now (some c.hysteresis)) nodes) refl
  where
    go :
        (o : Option Node)
        → best_node (standby_query c health now (some c.hysteresis)) nodes ≡ o
        → (n : Node) × (best_node (standby_query c health now (some c.hysteresis)) nodes ≡ some n)
          × (n.id ≡ some i)
    go none e = ground arith
    go (some n) e = (n, e, ground arith)

due :
    (c : Config) (health : List NodeHealth) (now : ℕ)
    → is_some c.active_id ≡ true
    → active_failing c health now ≡ true
    → still_within now c.last_failover_at c.cooldown ≡ false
    → IsDue c health now
due c health now a f w =
    let (row, found, failures, fresh) = failing_row c health now f in
    record {
      active = a;
      row = row;
      found = found;
      failures = failures;
      recent = (fresh_iff (some row) now c.active_ttl).0 fresh;
      cooled = cooled_lem now c.last_failover_at c.cooldown w;
    }

-- `decide` names a node only when a switch is due; it is then the id of a candidate of the pool,
-- neither the active node nor one that was lately fled, and no candidate ranks above it.
pub decide_sound :
    (c : Config) (health : List NodeHealth) (nodes : List Node) (now i : ℕ)
    → decide c health nodes now ≡ some i
    → IsDue c health now
      × (n : Node) × (n.id ≡ some i)
      × Memᴰ n nodes
      × IsEligible (standby_query c health now (some c.hysteresis)) n
      × ((m : Node)
          → Memᴰ m nodes
          → IsEligible (standby_query c health now (some c.hysteresis)) m
          → above (standby_query c health now (some c.hysteresis)) m n ≡ false)
unfolding decide
decide_sound c health nodes now i h =
    let (a, f, w) = decide_gates c health nodes now i h in
    let (n, best, id) = decide_best c health nodes now i h in
    let (m, e, top) = (best_node_lem _ nodes).0 n best in (due c health now a f w, n, id, m, e, top)

due_gates :
    (c : Config) (health : List NodeHealth) (now : ℕ)
    → IsDue c health now
    → (active_failing c health now ≡ true)
      × (still_within now c.last_failover_at c.cooldown ≡ false)
unfolding active_failing
due_gates c health now d = (
  rw (d.found, active_failing)
      (ground (arith, d.failures, (fresh_iff (some d.row) now c.active_ttl).1 d.recent)),
  gate c.last_failover_at refl,
)
  where
    gate : (last : Option ℕ) → c.last_failover_at ≡ last → still_within now last c.cooldown ≡ false
    gate none e = refl
    gate (some l) e = ground (arith, d.cooled l e)

-- When a switch is due and the pool, whose rows all have ids, holds a candidate, `decide` names one.
pub decide_complete :
    (c : Config) (health : List NodeHealth) (nodes : List Node) (now : ℕ) (n : Node)
    → IsDue c health now
    → ((m : Node) → Memᴰ m nodes → m.id ≢ none)
    → Memᴰ n nodes
    → IsEligible (standby_query c health now (some c.hysteresis)) n
    → decide c health nodes now ≢ none
unfolding decide
decide_complete c health nodes now n d ids m e h =
    let (f, w) = due_gates c health now d in
    go f w (best_node (standby_query c health now (some c.hysteresis)) nodes) refl
  where
    go :
        active_failing c health now ≡ true
        → still_within now c.last_failover_at c.cooldown ≡ false
        → (o : Option Node) → best_node (standby_query c health now (some c.hysteresis)) nodes ≡ o
        → ⊥
    go f w none b = (best_node_lem (standby_query c health now (some c.hysteresis)) nodes).1 b n m e
    go f w (some k) b =
        ids k ((best_node_lem (standby_query c health now (some c.hysteresis)) nodes).0 k b).0
          (ground (arith, d.active))
