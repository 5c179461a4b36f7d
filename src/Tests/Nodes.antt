-- ===== src/Tests/Nodes.antt =====
-- models.py, health/selection.py and the node_health table at small values.
use mathlib.Core.List.{Memᴰ}
use v2pi.Base.{ℕ, ◌≡◌, refl, ap, sym, Bool, true, false, none, some, eq_of_some, []}
use v2pi.Node.{Node}
use v2pi.Health.{NodeHealth, find_health}
use v2pi.Health.Table.{RealCheck, outdated}
use v2pi.Health.Table.Counting.{IsKeyed}
use v2pi.Health.Selection.{Query, above, best_node, active_freshness_ttl, standby_freshness_ttl}
use v2pi.Health.Selection.Ranking.{IsEligible, best_node_lem}
use v2pi.Tests.Data.{bare_node, nodes, failing, health, settings}

-- A Shadowsocks entry with the fields of another transport.
abbrev odd_node : Node
odd_node = record bare_node {
  protocol = "shadowsocks";
  transport = "xhttp";
  flow = "x";
  path = "/p";
}

ttl : standby_freshness_ttl settings ≡ some 600
unfolding standby_freshness_ttl active_freshness_ttl
ttl = refl

-- What a failover from node 1 asks for.
abbrev query : Query
query = record {
  health = health;
  exclude_id = some 1;
  exclude_ids = [];
  require_alive = true;
  now = 1010;
  freshness_ttl = some 600;
  max_fail_count = some 3;
}

best_node_lem_example :
    ((n : Node)
      → best_node query nodes ≡ some n
      → Memᴰ n nodes
        × IsEligible query n
        × ((m : Node) → Memᴰ m nodes → IsEligible query m → above query m n ≡ false))
    × (best_node query nodes ≡ none → (m : Node) → Memᴰ m nodes → ¬ IsEligible query m)
best_node_lem_example = best_node_lem query nodes

abbrev check_at : ℕ → Bool → RealCheck
check_at at ok = record {
  real_ok = ok;
  real_ms = none;
  egress_ip = none;
  egress_ip6 = none;
  checked_at = at;
}

keyed : IsKeyed health
unfolding find_health
keyed = (refl, (refl, (refl, tt)))

timely :
    (h : NodeHealth) → find_health health (some 1) ≡ some h → outdated h.checked_at 1100 ≡ false
unfolding find_health outdated
timely h e = ap (λ x. outdated x.checked_at 1100) (sym (eq_of_some e))

late : outdated failing.checked_at 900 ≡ true
unfolding outdated
late = refl

found : find_health health (some 1) ≡ some failing
unfolding find_health
found = refl
