-- ===== src/Health/Table.antt =====
-- nodes/store.py: the writes to node_health. A row is written whole by its key, `node_id`.
pub mod Counting
use v2pi.Base.{
  ℕ, zero, suc, ◌+◌, ◌-◌, String, Bool, true, false, ltb, ◌==◌, Option, none, some, List, [], ◌∷◌,
  ◌++◌, length, drop, if◌then◌else◌,
}
use v2pi.Health.{NodeHealth}

-- The row of a node that has not been checked: every column at its default.
abbrev pub unchecked : ℕ → NodeHealth
unchecked i = record {
  node_id = i;
  last_tcp_ok = none;
  last_tcp_ms = none;
  last_http_ok = none;
  last_http_ms = none;
  last_real_ok = none;
  last_real_ms = none;
  egress_ip = none;
  egress_ip6 = none;
  checked_at = none;
  fail_count = 0;
  lat_history = [];
}

-- `INSERT … ON CONFLICT(node_id) DO UPDATE`: the new row, or a change of the one that is there.
unfoldable pub upsert :
    ℕ → NodeHealth → (NodeHealth → NodeHealth) → List NodeHealth → List NodeHealth
upsert i fresh change [] = fresh ∷ []
upsert i fresh change (h ∷ rows) =
    let rest = upsert i fresh change rows in if h.node_id == i then change h ∷ rows else h ∷ rest

-- What a real request through a node gave.
pub record RealCheck : Type 0 where
  pub real_ok : Bool
  pub real_ms : Option ℕ
  pub egress_ip : Option String
  pub egress_ip6 : Option String
  pub checked_at : ℕ

-- `node_health.checked_at IS NOT NULL AND excluded.checked_at < node_health.checked_at`
unfoldable pub outdated : Option ℕ → ℕ → Bool
outdated none at = false
outdated (some t) at = ltb at t

-- The row that `update_health_real` inserts where there is none.
unfoldable pub first_real : ℕ → RealCheck → NodeHealth
first_real i c = record (unchecked i) {
  last_real_ok = some c.real_ok;
  last_real_ms = c.real_ms;
  egress_ip = c.egress_ip;
  egress_ip6 = c.egress_ip6;
  checked_at = some c.checked_at;
  fail_count = if c.real_ok then 0 else 1;
}

-- A result older than the row is dropped; the counter starts anew at a success.
unfoldable pub next_real : RealCheck → NodeHealth → NodeHealth
unfolding outdated
next_real c h = if outdated h.checked_at c.checked_at then h else record h {
  last_real_ok = some c.real_ok;
  last_real_ms = c.real_ms;
  egress_ip = c.egress_ip;
  egress_ip6 = c.egress_ip6;
  checked_at = some c.checked_at;
  fail_count = if c.real_ok then 0 else h.fail_count + 1;
}

unfoldable pub update_health_real : ℕ → RealCheck → List NodeHealth → List NodeHealth
unfolding upsert first_real next_real
update_health_real i c = upsert i (first_real i c) (next_real c)

-- What the direct sweep found.
pub record DirectCheck : Type 0 where
  pub tcp_ok : Bool
  pub tcp_ms : Option ℕ
  pub http_ok : Bool
  pub http_ms : Option ℕ
  pub checked_at : Option ℕ

-- The later of two stamps, where either may be missing.
unfoldable pub later_stamp : Option ℕ → Option ℕ → Option ℕ
later_stamp old none = old
later_stamp none (some t) = some t
later_stamp (some s) (some t) = if ltb t s then some s else some t

next_direct : DirectCheck → NodeHealth → NodeHealth
next_direct c h = record h {
  last_tcp_ok = some c.tcp_ok;
  last_tcp_ms = c.tcp_ms;
  last_http_ok = some c.http_ok;
  last_http_ms = c.http_ms;
  checked_at = later_stamp h.checked_at c.checked_at;
}

unfoldable pub update_health_direct : ℕ → DirectCheck → List NodeHealth → List NodeHealth
unfolding upsert next_direct later_stamp
update_health_direct i c = upsert i (next_direct c (unchecked i)) (next_direct c)

-- `xs[-n:]`
abbrev pub last_of : ℕ → List ℕ → List ℕ
last_of n xs = drop (length xs - n) xs

-- `record_latency` with its `cap` of 20.
unfoldable pub record_latency : ℕ → ℕ → List NodeHealth → List NodeHealth
record_latency i ms [] = []
record_latency i ms (h ∷ rows) =
    let rest = record_latency i ms rows in
    if h.node_id == i
    then record h { lat_history = last_of 20 (h.lat_history ++ ms ∷ []) } ∷ rows
    else h ∷ rest
