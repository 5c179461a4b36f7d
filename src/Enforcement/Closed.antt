-- ===== src/Enforcement/Closed.antt =====
-- controller.py: what a fail-closed gateway does not do.
use v2pi.Base.{
  ◌≡◌, ◌≢◌, ◌⊎◌, refl, ap, ◌∙◌, arith, Bool, true, false, String, Option, none, some, if◌then◌else◌,
}
use v2pi.Settings.{Row, blank, num, junk, unreadable}
use v2pi.Enforcement.{
  NetResult, Method, apply_tproxy, apply_guard, teardown, Answer, raised, no_result, result,
  answered, Rendered, plan, cover_unknown, unrendered, failed, Net, Env, failure, snapshot,
  record_enforcement, call_net, refuse_enforcement, enforcement_plan, apply_rendered, apply_net,
  kill_switch_on, guard_rendered, guard, stop_with, stop_net, set, idle_mode, mode_with,
  enforcement_mode, sync_with, sync_net,
}

-- No tunnel is live: xray does not run, or no node is the active one.
abbrev pub IsIdle : {Plan Host : Type 0} → Env Plan Host → Type 0
IsIdle env = (env.running ≡ false) ⊎ (env.active_node_id ≡ blank)

module _ {Plan Host : Type 0} (env : Env Plan Host) where
  pub idle_mode-not_tproxy : (k : Option Bool) → idle_mode env k ≢ some apply_tproxy
  unfolding idle_mode
  idle_mode-not_tproxy none = λ e. cc e
  idle_mode-not_tproxy (some true) = λ e. cc e
  idle_mode-not_tproxy (some false) = λ e. cc e

  idle-not_tproxy : IsIdle env → enforcement_mode env ≢ some apply_tproxy
  unfolding enforcement_mode mode_with
  idle-not_tproxy idle = by_state env.running env.active_node_id idle
    where
      by_state :
          (b : Bool) (a : Row)
          → (b ≡ false) ⊎ (a ≡ blank)
          → mode_with env b (set a) ≢ some apply_tproxy
      by_state false a h = idle_mode-not_tproxy (kill_switch_on env)
      by_state true blank h = idle_mode-not_tproxy (kill_switch_on env)
      by_state true (num n) h = λ _. ground arith
      by_state true junk h = λ _. ground arith
      by_state true unreadable h = λ _. ground arith

  -- Nothing was done to the host, and the answer, if there is one, is not ok.
  abbrev pub Untouched : Net Host → Option NetResult × Net Host → Type 0
  Untouched net (none, after) = after.host ≡ net.host
  Untouched net (some r, after) =
      (after.host ≡ net.host)
      × (r.ok ≡ false)
      × (after.status ≡ failed)
      × (after.wan_blocked ≡ none)

  refused :
      (error : String) (wan : Bool) (net : Net Host)
      → Untouched net (record_enforcement env (failure error) wan net)
  unfolding record_enforcement snapshot
  refused error wan net = (refl, refl, refl, refl)

  apply_net-Untouched :
      (net : Net Host) (why : String)
      → enforcement_plan env ≡ cover_unknown why
      → Untouched net (apply_net env net)
  unfolding apply_net apply_rendered refuse_enforcement
  apply_net-Untouched net why e = rw e (refused why false net)

  stop_with-Untouched :
      (k : Option Bool) (net : Net Host) (why : String)
      → k ≢ some false
      → enforcement_plan env ≡ cover_unknown why
      → Untouched net (stop_with env k net)
  unfolding stop_with guard guard_rendered refuse_enforcement
  stop_with-Untouched none net why on e = refl
  stop_with-Untouched (some false) net why on e = absurd (on refl)
  stop_with-Untouched (some true) net why on e = at_guard env.has_guard
    where
      at_guard :
          (b : Bool)
          → Untouched net (
              if b
              then guard_rendered env (enforcement_plan env) net
              else record_enforcement env
                  (failure "network backend cannot install fail-closed guard")
                  false
                  net)
      at_guard true = rw e (refused why false net)
      at_guard false = refused "network backend cannot install fail-closed guard" false net

  cover_unknown-plan :
      (p : Plan)
      → env.from_store ≡ plan p
      → env.cover_known ≡ false
      → enforcement_plan env ≡ cover_unknown env.cover_why
  unfolding enforcement_plan
  cover_unknown-plan p e k = rw (e, enforcement_plan) (rw k refl)

  -- While the interfaces that may carry the segment are not all known, and the kill switch is not off,
  -- `sync_net` leaves the host as it is, and answers, if it does, that the enforcement failed.
  pub sync_net-refuses :
      (net : Net Host) (p : Plan)
      → env.from_store ≡ plan p
      → env.cover_known ≡ false
      → kill_switch_on env ≢ some false
      → Untouched net (sync_net env net)
  unfolding sync_net stop_net
  sync_net-refuses net p rendered unknown on = go (enforcement_mode env)
    where
      no_plan : enforcement_plan env ≡ cover_unknown env.cover_why
      no_plan = cover_unknown-plan p rendered unknown

      go : (m : Option Method) → Untouched net (sync_with env m net)
      go none = refl
      go (some apply_tproxy) = apply_net-Untouched net env.cover_why no_plan
      go (some apply_guard) = stop_with-Untouched (kill_switch_on env) net env.cover_why on no_plan
      go (some teardown) = stop_with-Untouched (kill_switch_on env) net env.cover_why on no_plan

  -- The environment, with another backend behind the methods that are not the guard.
  abbrev pub rewired : (Method → Option Plan → Host → Answer × Host) → Env Plan Host
  rewired call = record env { call = call }

module _ {Plan Host : Type 0} (env : Env Plan Host)
    (call : Method → Option Plan → Host → Answer × Host) (net : Net Host) where
  answered-rewired :
      (a : Answer × Host)
      → answered (rewired env call) apply_guard true net a ≡ answered env apply_guard true net a
  unfolding answered
  answered-rewired (raised message, host) = refl
  answered-rewired (no_result, host) = refl
  answered-rewired (result r, host) = refl

  guard_rendered-rewired :
      ((p : Option Plan) (h : Host) → call apply_guard p h ≡ env.call apply_guard p h)
      → (r : Rendered Plan) → guard_rendered (rewired env call) r net ≡ guard_rendered env r net
  unfolding guard_rendered call_net refuse_enforcement
  guard_rendered-rewired same (plan p) =
      ap (answered (rewired env call) apply_guard true net) (same (some p) net.host)
      ∙ answered-rewired (env.call apply_guard (some p) net.host)
  guard_rendered-rewired same (cover_unknown why) = refl
  guard_rendered-rewired same (unrendered message) = refl

  guard-rewired :
      ((p : Option Plan) (h : Host) → call apply_guard p h ≡ env.call apply_guard p h)
      → (r : Rendered Plan) → guard (rewired env call) r net ≡ guard env r net
  unfolding guard
  guard-rewired same r = at_guard env.has_guard
    where
      other : Option NetResult × Net Host
      other =
          record_enforcement env (failure "network backend cannot install fail-closed guard") false
            net

      at_guard :
          (b : Bool)
          → (if b then guard_rendered (rewired env call) r net else other)
            ≡ (if b then guard_rendered env r net else other)
      at_guard true = guard_rendered-rewired same r
      at_guard false = refl

  stop_with-rewired :
      ((p : Option Plan) (h : Host) → call apply_guard p h ≡ env.call apply_guard p h)
      → (k : Option Bool) → k ≡ some true
      → stop_with (rewired env call) k net ≡ stop_with env k net
  unfolding stop_with
  stop_with-rewired same none on = refl
  stop_with-rewired same (some true) on = guard-rewired same (enforcement_plan env)
  stop_with-rewired same (some false) on = cc on

-- With the kill switch on, while xray does not run or no node is active, `sync_net` depends on no method of the backend but the
-- guard: two backends that agree on the guard end alike.
pub sync_net-guards :
    {Plan Host : Type 0} (env : Env Plan Host) (call : Method → Option Plan → Host → Answer × Host)
    (net : Net Host)
    → ((p : Option Plan) (h : Host) → call apply_guard p h ≡ env.call apply_guard p h)
    → kill_switch_on env ≡ some true
    → IsIdle env
    → sync_net (rewired env call) net ≡ sync_net env net
unfolding sync_net stop_net
sync_net-guards env call net same on idle = go (enforcement_mode env) refl
  where
    go :
        (m : Option Method)
        → enforcement_mode env ≡ m
        → sync_with (rewired env call) m net ≡ sync_with env m net
    go none e = refl
    go (some apply_tproxy) e = absurd (idle-not_tproxy env idle e)
    go (some apply_guard) e = stop_with-rewired env call net same (kill_switch_on env) on
    go (some teardown) e = stop_with-rewired env call net same (kill_switch_on env) on
