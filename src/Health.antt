-- ===== src/Health.antt =====
-- backend/pi_gw_panel/health: a node's probe results, as the two health loops share them.
pub mod Table
pub mod Selection
pub mod Failover
pub mod Liveness
use v2pi.Base.{ℕ, String, Bool, id_eq, Option, none, some, List, [], ◌∷◌, if◌then◌else◌}

-- A row of node_health. The texts of `checked_at` are ISO times, each read as its second.
pub record NodeHealth : Type 0 where
  pub node_id : ℕ
  pub last_tcp_ok : Option Bool
  pub last_tcp_ms : Option ℕ
  pub last_http_ok : Option Bool
  pub last_http_ms : Option ℕ
  pub last_real_ok : Option Bool
  pub last_real_ms : Option ℕ
  pub egress_ip : Option String
  pub egress_ip6 : Option String
  pub checked_at : Option ℕ
  pub fail_count : ℕ
  pub lat_history : List ℕ

-- `health.get(id)` of the dict `{h.node_id: h for h in rows}`: of two rows the later counts.
unfoldable pub find_health : List NodeHealth → Option ℕ → Option NodeHealth
find_health [] id = none
find_health (h ∷ rows) id = elim (find_health rows id) [
  | some later ↦ some later
  | none ↦ if id_eq (some h.node_id) id then some h else none
]
