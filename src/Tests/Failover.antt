-- ===== src/Tests/Failover.antt =====
-- health/failover.py at the tables of Data: a switch from node 1 to node 3, and the next one.
use mathlib.Core.List.{Memᴰ}
use v2pi.Base.{
  ℕ, ◌≡◌, ◌≢◌, ◌⊎◌, ◌≤◌, ◌<◌, ◌+◌, refl, arith, Bool, true, false, not, is_some, Option, none, some,
  eq_of_some, List, [], ◌∷◌, inl, inr,
}
use v2pi.Settings.{num}
use v2pi.Events.{add_event}
use v2pi.Node.{Node}
use v2pi.Health.{NodeHealth, find_health}
use v2pi.Health.Table.{RealCheck, update_health_real}
use v2pi.Health.Selection.{Query, above, ranked_nodes, best_node, alive, health_fresh}
use v2pi.Health.Selection.Ranking.{IsEligible}
use v2pi.Health.Failover.{
  Store, Config, Env, switched, answered, read_config, decide, maybe_report_all_down, standby_query,
  run, evaluate, promote, candidates, note_switch,
}
use v2pi.Health.Failover.Decision.{IsDue, decide_sound, decide_complete}
use v2pi.Health.Failover.Run.{Promotion, run-switched}
use v2pi.Health.Failover.Affinity.{run_no_return}
use v2pi.Tests.Data.{node_of, nodes, failing, living, health, settings, store, no_events}

abbrev config : Config
config = record {
  hysteresis = 3;
  cooldown = 120;
  active_id = some 1;
  last_failover_at = none;
  active_ttl = 180;
  standby_ttl = some 600;
  demoted = [];
}

-- Every node answers, and every one can be applied.
abbrev env : Env
env = record {
  real_through = λ n st. (answered true (some 50) none none, st);
  apply_fn = λ n st. (true, record st { settings = record st.settings { active_node_id = num 3 } });
}

config_read : read_config settings 1010 ≡ some config
unfolding read_config v2pi.Health.Selection.active_freshness_ttl
    v2pi.Health.Selection.standby_freshness_ttl
config_read = refl

decided : decide config health nodes 1010 ≡ some 3
unfolding decide best_node ranked_nodes find_health health_fresh v2pi.Base.Sort.sort
    v2pi.Health.Selection.eligible v2pi.Base.keep v2pi.Health.Selection.excluded v2pi.Base.any_of
    alive above v2pi.Health.Selection.rank_lt v2pi.Health.Selection.rank_key
    v2pi.Health.Selection.health_score v2pi.Health.Selection.lat
decided = refl

-- What the first switch leaves.
abbrev after : Store
after = record store {
  settings = record settings {
    active_node_id = num 3;
    last_failover_at = num 1010;
    last_demoted_node_id = num 1;
  };
  health = failing ∷ living 2 80 ∷ record (living 3 50) { checked_at = some 1010 } ∷ [];
}

switched_once : run env 1010 store ≡ (switched (some 3), after)
unfolding run read_config decide find_health health_fresh v2pi.Health.Selection.active_freshness_ttl
    best_node ranked_nodes v2pi.Base.Sort.sort v2pi.Health.Selection.eligible
    v2pi.Health.Selection.standby_freshness_ttl v2pi.Base.keep v2pi.Health.Selection.excluded
    v2pi.Base.any_of alive above v2pi.Health.Selection.rank_lt candidates evaluate note_switch
    promote v2pi.Health.Selection.health_score v2pi.Health.Selection.lat
    v2pi.Health.Selection.rank_key update_health_real v2pi.Health.Table.upsert
switched_once = refl

-- Two hundred seconds later node 3 fails too, and node 1 would be the quickest again.
abbrev later_health : List NodeHealth
later_health =
    record (living 1 10) { checked_at = some 1205 }
    ∷ record (living 2 80) { checked_at = some 1205 }
    ∷ record failing { node_id = 3; checked_at = some 1205 }
    ∷ []

abbrev later : Store
later = record after { health = later_health }

abbrev env₂ : Env
env₂ = record {
  real_through = λ n st. (answered true (some 60) none none, st);
  apply_fn = λ n st. (true, record st { settings = record st.settings { active_node_id = num 2 } });
}

abbrev later_after : Store
later_after = record later {
  settings = record settings {
    active_node_id = num 2;
    last_failover_at = num 1210;
    last_demoted_node_id = num 3;
  };
  health =
      record (living 1 10) { checked_at = some 1205 }
      ∷ record (living 2 60) { checked_at = some 1210 }
      ∷ record failing { node_id = 3; checked_at = some 1205 }
      ∷ [];
}

switched_twice : run env₂ 1210 later ≡ (switched (some 2), later_after)
unfolding run read_config decide find_health health_fresh v2pi.Health.Selection.active_freshness_ttl
    best_node ranked_nodes v2pi.Base.Sort.sort v2pi.Health.Selection.eligible
    v2pi.Health.Selection.standby_freshness_ttl v2pi.Base.keep v2pi.Health.Selection.excluded
    v2pi.Base.any_of alive above v2pi.Health.Selection.rank_lt candidates evaluate note_switch
    promote v2pi.Health.Selection.health_score v2pi.Health.Selection.lat
    v2pi.Health.Selection.rank_key update_health_real v2pi.Health.Table.upsert
switched_twice = refl

decide_sound_example : IsDue config health 1010
decide_sound_example = (decide_sound config health nodes 1010 3 decided).0

due : IsDue config health 1010
unfolding find_health
due = record {
  active = refl;
  row = failing;
  found = refl;
  failures = omega arith;
  recent = (failing, 1000, refl, refl, omega arith);
  cooled = λ last e. cc;
}

fit : IsEligible (standby_query config health 1010 (some 3)) (node_of 3 "c.example")
unfolding find_health alive
fit = record {
  not_stale = refl;
  not_excluded = λ e. omega (arith, eq_of_some e);
  not_listed = λ i m. elim m [ ];
  fresh = λ ttl e. (living 3 40, 1000, refl, refl, omega (arith, eq_of_some e));
  lives = λ e. refl;
}

identified : (m : Node) → Memᴰ m nodes → m.id ≢ none
identified m (Memᴰ.head e) h = cc
identified m (Memᴰ.tail (Memᴰ.head e)) h = cc
identified m (Memᴰ.tail (Memᴰ.tail (Memᴰ.head e))) h = cc
identified m (Memᴰ.tail (Memᴰ.tail (Memᴰ.tail r))) h = elim r [ ]

decide_complete_example : decide config health nodes 1010 ≢ none
decide_complete_example =
    decide_complete config health nodes 1010 (node_of 3 "c.example") due identified
      (Memᴰ.tail (Memᴰ.tail (Memᴰ.head refl))) fit

run-switched_example :
    (c : Config) × (n : Node) × (read_config settings 1010 ≡ some c)
    × (decide c health nodes 1010 ≢ none)
    × (n.id ≡ some 3)
    × Memᴰ n nodes
    × IsEligible (standby_query c health 1010 (some c.hysteresis)) n
    × Promotion env c 1010 n after
run-switched_example = run-switched env 1010 store after (some 3) switched_once

run_no_return_example : ◌≢◌ {A = ℕ} 2 1
run_no_return_example =
    run_no_return env env₂ 1010 1210 store after later later_after (some 3) 1 2 refl switched_once
      refl refl (omega arith) switched_twice

-- Both standbys are down, and that was not said before.
abbrev down_health : List NodeHealth
down_health = failing ∷ []

abbrev down_store : Store
down_store = record store { health = down_health }

abbrev reported : Store
reported = record down_store {
  settings = record settings { last_all_down_at = num 1010 };
  events =
      add_event 1010 "all-nodes-down" "active node failing and no alive node to fail over to"
        no_events;
}

said : maybe_report_all_down config down_health nodes 1010 false down_store ≡ some reported
unfolding maybe_report_all_down find_health health_fresh best_node ranked_nodes v2pi.Base.Sort.sort
    v2pi.Health.Selection.eligible v2pi.Base.keep v2pi.Health.Selection.excluded v2pi.Base.any_of
said = refl
