-- ===== src/Tests/Enforcement.antt =====
-- controller.py with plans that are texts and a host that is the list of the calls made to it.
use v2pi.Base.{◌≡◌, ◌≢◌, inl, refl, true, false, String, Option, none, some, List, [], ◌∷◌}
use v2pi.Settings.{num, blank}
use v2pi.Enforcement.{
  NetResult, Method, apply_tproxy, apply_guard, teardown, Answer, raised, result, plan, Net,
  unconfirmed, Env, kill_switch_on, sync_net,
}
use v2pi.Enforcement.Closed.{Untouched, rewired, sync_net-refuses, sync_net-guards}

abbrev Calls : Type 0
Calls = List Method

abbrev good : NetResult
good = record { ok = true; error = ""; warning = "" }

-- xray is stopped, and the kill switch is on by default.
abbrev stopped : Env String Calls
stopped = record {
  running = false;
  active_node_id = num 1;
  kill_switch_enabled = blank;
  from_store = plan "eth1";
  cover_known = true;
  cover_why = "";
  cover_names = "wlan0" ∷ [];
  covering_plan = λ p names. "eth1 wlan0";
  has_guard = true;
  call = λ m p host. (result good, m ∷ host);
  release = λ host. (record { exception = none; why = ""; note = "" }, host);
}

abbrev blind : Env String Calls
blind = record stopped { cover_known = false; cover_why = "no record" }

abbrev net : Net Calls
net = record {
  host = [];
  status = unconfirmed;
  wan_blocked = none;
  enforcement_error = "";
  last_net_warning = "";
}

guarded : (sync_net stopped net).1.host ≡ apply_guard ∷ []
unfolding sync_net
guarded = refl

switch_on : kill_switch_on blind ≢ some false
unfolding kill_switch_on
switch_on = λ e. cc e

sync_net-refuses_example : Untouched blind net (sync_net blind net)
sync_net-refuses_example = sync_net-refuses blind net "eth1" refl refl switch_on

-- A backend whose other methods do not work.
abbrev broken : Method → Option String → Calls → Answer × Calls
broken apply_guard p host = (result good, apply_guard ∷ host)
broken apply_tproxy p host = (raised "broken", host)
broken teardown p host = (raised "broken", host)

on : kill_switch_on stopped ≡ some true
unfolding kill_switch_on
on = refl

sync_net-guards_example : sync_net (rewired stopped broken) net ≡ sync_net stopped net
sync_net-guards_example = sync_net-guards stopped broken net (λ p h. refl) on (inl refl)
