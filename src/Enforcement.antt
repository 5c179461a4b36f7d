-- ===== src/Enforcement.antt =====
-- controller.py: which rules the panel puts on the host for the present state of the tunnel, and what
-- it records of them. The backend's three methods, the render of the net plan and the release of the
-- emergency deny (net_control) are arguments; `Host` is whatever they change.
pub mod Recorded
pub mod Closed
use Prim.Native.String.{◌++◌ as ◌<>◌}
use v2pi.Base.{
  Bool, true, false, not, String, str_eq, Option, none, some, List, [], ◌∷◌, if◌then◌else◌,
}
use v2pi.Settings.{Row, blank, num, junk, unreadable, flag}

pub record NetResult : Type 0 where
  pub ok : Bool
  pub error : String
  pub warning : String

-- The backend's methods.
pub data Method : Type 0 where
  apply_tproxy apply_guard teardown : Method

pub method_name : Method → String
method_name apply_tproxy = "apply_tproxy"
method_name apply_guard = "apply_guard"
method_name teardown = "teardown"

-- How a call of one ends: with an exception, with something that is no NetResult, or with one.
pub data Answer : Type 0 where
  raised : String → Answer
  no_result : Answer
  result : NetResult → Answer

-- How `release_emergency_deny` ends, and what `enforcement_fallback_note` says then.
pub record Release : Type 0 where
  pub exception : Option String
  pub why : String
  pub note : String

-- A plan, one that may not be installed as the interfaces are not all known, or an exception.
pub data Rendered (Plan : Type 0) : Type 0 where
  plan : Plan → Rendered Plan
  cover_unknown : String → Rendered Plan
  unrendered : String → Rendered Plan

-- `enforcement_status`: nothing yet, `ok` or `error`.
pub data Status : Type 0 where
  unconfirmed confirmed failed : Status

-- The backend's snapshot of the last outcome, the store's last warning, and the host.
pub record Net (Host : Type 0) : Type 0 where
  pub host : Host
  pub status : Status
  pub wan_blocked : Option Bool
  pub enforcement_error : String
  pub last_net_warning : String

-- What an operation meets: the store, the supervisor and the backend.
pub record Env (Plan Host : Type 0) : Type 0 where
  pub running : Bool
  pub active_node_id : Row
  pub kill_switch_enabled : Row
  pub from_store : Rendered Plan
  pub cover_known : Bool
  pub cover_why : String
  pub cover_names : List String
  pub covering_plan : Plan → List String → Plan
  pub has_guard : Bool
  pub call : Method → Option Plan → Host → Answer × Host
  pub release : Host → Release × Host

-- `a or b`
abbrev or_else : String → String → String
or_else a b = if str_eq a "" then b else a

abbrev failure : String → NetResult
failure error = record { ok = false; error = error; warning = "" }

-- `get_setting(key)` as a truth value; `none` is an exception.
abbrev set : Row → Option Bool
set blank = some false
set (num n) = some true
set junk = some true
set unreadable = none

module _ {Plan Host : Type 0} (env : Env Plan Host) where
  held_by : Release × Host → String × Host
  held_by (r, host) = elim r.exception [
    | some message ↦ (
      "the segment enforcement is installed, but the emergency deny on forwarded traffic could not be removed, so segment clients may still have no network: "
          <> message,
      host,
    )
    | none ↦ (or_else r.why r.note, host)
  ]

  -- `_release_emergency_deny`: the empty text where nothing is held any more.
  unfoldable pub release_emergency_deny : Host → String × Host
  unfolding held_by
  release_emergency_deny host = held_by (env.release host)

  -- The snapshot of an outcome.
  snapshot : NetResult → Bool → Net Host → Option NetResult × Net Host
  snapshot r wan net = (
    some r,
    record net {
      status = if r.ok then confirmed else failed;
      wan_blocked = if r.ok then some wan else none;
      enforcement_error = if r.ok then "" else or_else r.error "network operation failed";
      last_net_warning = if r.ok then r.warning else "";
    },
  )

  after_release : NetResult → Bool → Net Host → String × Host → Option NetResult × Net Host
  unfolding snapshot
  after_release r wan net (held, host) =
      if str_eq held ""
      then snapshot r wan (record net { host = host })
      else snapshot (failure held) wan (record net { host = host })

  -- `_record_enforcement`: a confirmed outcome releases the deny, and is none if that fails.
  unfoldable pub record_enforcement : NetResult → Bool → Net Host → Option NetResult × Net Host
  unfolding after_release release_emergency_deny
  record_enforcement r wan net =
      if r.ok then after_release r wan net (release_emergency_deny net.host) else snapshot r wan net

  answered : Method → Bool → Net Host → Answer × Host → Option NetResult × Net Host
  unfolding record_enforcement method_name
  answered m wan net (raised message, host) =
      record_enforcement (failure (method_name m <> (" raised: " <> message))) wan
        (record net { host = host })
  answered m wan net (no_result, host) =
      record_enforcement (failure (method_name m <> " returned no NetResult")) wan
        (record net { host = host })
  answered m wan net (result r, host) = record_enforcement r wan (record net { host = host })

  -- `_call_net`
  unfoldable pub call_net : Method → Option Plan → Bool → Net Host → Option NetResult × Net Host
  unfolding answered
  call_net m p wan net = answered m wan net (env.call m p net.host)

  -- `_refuse_enforcement`: the backend is not called.
  unfoldable pub refuse_enforcement : String → Net Host → Option NetResult × Net Host
  unfolding record_enforcement
  refuse_enforcement reason net = record_enforcement (failure reason) false net

  widen : List String → Plan → Plan
  widen [] p = p
  widen (name ∷ names) p = env.covering_plan p (name ∷ names)

  covered : Rendered Plan → Rendered Plan
  unfolding widen
  covered (unrendered message) = unrendered message
  covered (cover_unknown why) = cover_unknown why
  covered (plan p) =
      if env.cover_known then plan (widen env.cover_names p) else cover_unknown env.cover_why

  -- `_enforcement_plan`
  unfoldable pub enforcement_plan : Rendered Plan
  unfolding covered
  enforcement_plan = covered env.from_store

  apply_rendered : Rendered Plan → Net Host → Option NetResult × Net Host
  unfolding call_net refuse_enforcement
  apply_rendered (plan p) net = call_net apply_tproxy (some p) false net
  apply_rendered (cover_unknown why) net = refuse_enforcement why net
  apply_rendered (unrendered message) net = (none, net)

  -- `apply_net`, with a store; `none` is an exception.
  unfoldable pub apply_net : Net Host → Option NetResult × Net Host
  unfolding apply_rendered enforcement_plan
  apply_net net = apply_rendered enforcement_plan net

  -- `_kill_switch_on`
  unfoldable pub kill_switch_on : Option Bool
  kill_switch_on = flag true env.kill_switch_enabled

  guard_rendered : Rendered Plan → Net Host → Option NetResult × Net Host
  unfolding call_net refuse_enforcement
  guard_rendered (plan p) net = call_net apply_guard (some p) true net
  guard_rendered (cover_unknown why) net = refuse_enforcement why net
  guard_rendered (unrendered message) net =
      record_enforcement (failure ("could not render the net plan: " <> message)) false net

  guard : Rendered Plan → Net Host → Option NetResult × Net Host
  unfolding guard_rendered
  guard rendered net =
      if env.has_guard
      then guard_rendered rendered net
      else record_enforcement (failure "network backend cannot install fail-closed guard") false net

  stop_with : Option Bool → Net Host → Option NetResult × Net Host
  unfolding guard enforcement_plan
  stop_with none net = (none, net)
  stop_with (some true) net = guard enforcement_plan net
  stop_with (some false) net = call_net teardown none false net

  -- `stop_net`
  unfoldable pub stop_net : Net Host → Option NetResult × Net Host
  unfolding stop_with kill_switch_on
  stop_net net = stop_with kill_switch_on net

  pub idle_mode : Option Bool → Option Method
  idle_mode none = none
  idle_mode (some true) = some apply_guard
  idle_mode (some false) = some teardown

  mode_with : Bool → Option Bool → Option Method
  unfolding idle_mode
  mode_with false active = idle_mode kill_switch_on
  mode_with true none = none
  mode_with true (some true) = some apply_tproxy
  mode_with true (some false) = idle_mode kill_switch_on

  -- `_enforcement_mode`: the method that the state calls for.
  unfoldable pub enforcement_mode : Option Method
  unfolding mode_with
  enforcement_mode = mode_with env.running (set env.active_node_id)

  sync_with : Option Method → Net Host → Option NetResult × Net Host
  sync_with none net = (none, net)
  sync_with (some apply_tproxy) net = apply_net net
  sync_with (some apply_guard) net = stop_net net
  sync_with (some teardown) net = stop_net net

  -- `sync_net`
  unfoldable pub sync_net : Net Host → Option NetResult × Net Host
  unfolding sync_with enforcement_mode apply_net stop_net
  sync_net net = sync_with enforcement_mode net

  plan_with : Plan → Option Method → Net Host → Option NetResult × Net Host
  unfolding guard
  plan_with p none net = (none, net)
  plan_with p (some apply_tproxy) net = call_net apply_tproxy (some p) false net
  plan_with p (some apply_guard) net = guard (plan p) net
  plan_with p (some teardown) net = call_net teardown none false net

  -- `sync_net_plan`: the same for a plan that the caller has rendered.
  unfoldable pub sync_net_plan : Plan → Net Host → Option NetResult × Net Host
  unfolding plan_with enforcement_mode
  sync_net_plan p net = plan_with p enforcement_mode net

  boot_with : Option Bool → Net Host → Option NetResult × Net Host
  boot_with none net = (none, net)
  boot_with (some false) net = (some (record { ok = true; error = ""; warning = "" }), net)
  boot_with (some true) net = stop_net net

  -- `boot_guard`
  unfoldable pub boot_guard : Net Host → Option NetResult × Net Host
  unfolding boot_with kill_switch_on stop_net
  boot_guard net = boot_with kill_switch_on net
