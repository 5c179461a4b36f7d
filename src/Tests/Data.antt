-- ===== src/Tests/Data.antt =====
-- Small tables that the tests share: three nodes, of which the first is active and failing.
use v2pi.Base.{ℕ, String, true, false, none, some, List, [], ◌∷◌}
use v2pi.Settings.{blank, num, Settings}
use v2pi.Node.{Node}
use v2pi.Events.{Log}
use v2pi.Health.{NodeHealth}
use v2pi.Health.Table.{unchecked}
use v2pi.Health.Failover.{Store}

abbrev pub bare_node : Node
bare_node = record {
  id = none;
  name = "";
  address = "";
  port = 443;
  uuid = "";
  protocol = "vless";
  password = "";
  method = "";
  transport = "vision";
  sni = "";
  public_key = "";
  short_id = "";
  fingerprint = "";
  flow = "";
  network = "tcp";
  security = "tls";
  path = "";
  host = "";
  mode = "";
  alpn = "";
  note = "";
  subscription_id = none;
  stale = false;
  tuning_profile_id = none;
  position = 0;
}

abbrev pub node_of : ℕ → String → Node
node_of i address = record bare_node { id = some i; address = address }

abbrev pub nodes : List Node
nodes = node_of 1 "a.example" ∷ node_of 2 "b.example" ∷ node_of 3 "c.example" ∷ []

-- Checked at 1000; the active node has failed three times.
abbrev pub failing : NodeHealth
failing = record (unchecked 1) { last_real_ok = some false; checked_at = some 1000; fail_count = 3 }

abbrev pub living : ℕ → ℕ → NodeHealth
living i ms = record (unchecked i) {
  last_tcp_ok = some true;
  last_real_ok = some true;
  last_real_ms = some ms;
  checked_at = some 1000;
}

abbrev pub health : List NodeHealth
health = failing ∷ living 2 80 ∷ living 3 40 ∷ []

abbrev pub settings : Settings
settings = record {
  failover_enabled = num 1;
  health_hysteresis = num 3;
  failover_cooldown = num 120;
  active_node_id = num 1;
  last_failover_at = blank;
  last_demoted_node_id = blank;
  last_all_down_at = blank;
  health_enabled = num 1;
  health_sweep_enabled = num 1;
  health_active_interval = num 60;
  health_interval = num 300;
}

abbrev pub no_events : Log
no_events = record { rows = []; last_id = 0 }

abbrev pub store : Store
store = record { settings = settings; nodes = nodes; health = health; events = no_events }
