-- ===== src/Apply.antt =====
-- controller.py, `apply_node`: a node becomes the tunnel, or what was there is put back, or the gateway
-- is closed. The files are those of XrayConfig/Manager; the supervisor, the network and the store are
-- seen by their answers.
pub mod Applied
pub mod Closed
pub mod Recovered
pub mod Boot
use v2pi.Base.{
  ℕ, ◌==◌, Bool, true, false, not, ◌&&◌, Option, none, some, if◌then◌else◌, String, str_eq, is_some,
}
use v2pi.XrayConfig.Manager.{
  File, WriteEnv, ApplyEnv, Disk, Outcome, apply, apply_irreversible, rollback,
}

-- What runs: nothing, a process that came up on this file, or something that nobody has confirmed.
pub data Process (Cfg : Type 0) : Type 0 where
  down : Process Cfg
  serves : File Cfg → Process Cfg
  unconfirmed : Process Cfg

-- What the host's rules do: carry the tunnel, keep the clients off the WAN as far as the kill switch
-- says, or nobody knows.
pub data NetState : Type 0 where
  tunnel guard unknown : NetState

-- A row that names a node: none or an empty text, a number as `str` writes it, or another text.
pub data Row : Type 0 where
  blank : Row
  num : ℕ → Row
  junk : String → Row

-- The rows that an apply writes. A number of bytes that is missing counts as 0.
pub record Store : Type 0 where
  pub active_node_id : Row
  pub prev_active_node_id : Row
  pub pending_active_node_id : Row
  pub active_since : Option ℕ
  pub session_base_up : ℕ
  pub session_base_down : ℕ
  pub data_used_up : ℕ
  pub data_used_down : ℕ
  pub rw_pending : Bool

pub record World (Cfg : Type 0) : Type 0 where
  pub disk : Disk Cfg
  pub process : Process Cfg
  pub net : NetState
  pub store : Store

-- How `reload` ends, and `stop`.
pub data Reload : Type 0 where
  ready not_ready reload_raised : Reload

pub data Stop : Type 0 where
  stopped survived stop_raised : Stop

-- What the parts answer in the course of one apply; `built` is none where `build_node_config` raises.
pub record Env (Cfg : Type 0) : Type 0 where
  pub built : Option Cfg
  pub valid : Bool
  pub writes : ApplyEnv
  pub mark : WriteEnv
  pub install : WriteEnv
  pub pending_ok : Bool
  pub reload : Reload
  pub net_ok : Bool
  pub rollback_install : WriteEnv
  pub rollback_mark : WriteEnv
  pub reload_previous : Reload
  pub net_previous_ok : Bool
  pub stop : Stop
  pub guard_ok : Bool
  pub books_ok : Bool
  pub now : ℕ
  -- `get_node` finds a row.
  pub has_node : ℕ → Bool
  -- The marker of a pending revocation can be read, written, and read back.
  pub marker_read : Bool
  pub marker_written : Bool
  pub marker_read_back : Bool

pub data Result : Type 0 where
  ok failed raised : Result

-- The node to go back to: the one that was active, unless it is the same node again. A row that `int`
-- refuses is no node's.
kept_previous : ℕ → Row → Row → Row
kept_previous id (num p) prev = if p == id then prev else num p
kept_previous id blank prev = blank
kept_previous id (junk text) prev = junk text

-- `previous_node is not None`; the id 0 counts as none.
has_previous : (ℕ → Bool) → Row → Bool
has_previous has (num n) = not (n == 0) && has n
has_previous has _ = false

-- `rw_reconcile_is_pending`, `rw_clear_reconcile_pending` and `_rw_complete_pending`: whether the
-- marker is proven to be gone, and the store after.
unfoldable pub clear_pending : Bool → Bool → Store → Bool × Store
clear_pending written read_back st =
    let st' = if written then record st { rw_pending = false } else st in
    (written && read_back && not st'.rw_pending, st')

unfoldable pub complete_pending : Bool → Bool → Bool → Store → Store
unfolding clear_pending
complete_pending read written read_back st =
    if read && st.rw_pending then (clear_pending written read_back st).1 else st

pub is_applied : Outcome → Bool
is_applied Outcome.applied = true
is_applied _ = false

is_ready : Reload → Bool
is_ready ready = true
is_ready _ = false

module _ {Cfg : Type 0} where
  run_reload : Reload → World Cfg → World Cfg
  run_reload ready w = record w { process = serves w.disk.live.shown }
  run_reload not_ready w = record w { process = unconfirmed }
  run_reload reload_raised w = record w { process = unconfirmed }

  run_net : Bool → World Cfg → World Cfg
  run_net up w = record w { net = if up then tunnel else unknown }

  run_stop : Stop → World Cfg → World Cfg
  run_stop stopped w = record w { process = down }
  run_stop survived w = w
  run_stop stop_raised w = w

  run_guard : Bool → World Cfg → World Cfg
  run_guard up w = if up then record w { net = guard } else w

  set_pending : Row → World Cfg → World Cfg
  set_pending row w = record w { store = record w.store { pending_active_node_id = row } }

  -- The transaction at the end of a successful apply.
  keep_books : Env Cfg → ℕ → Store → Store
  unfolding kept_previous
  keep_books env id st = record st {
    prev_active_node_id = kept_previous id st.active_node_id st.prev_active_node_id;
    active_node_id = num id;
    pending_active_node_id = blank;
    active_since = some env.now;
    session_base_up = st.data_used_up;
    session_base_down = st.data_used_down;
  }

  finish : Env Cfg → World Cfg → World Cfg
  finish env w = record w {
    store = complete_pending env.marker_read env.marker_written env.marker_read_back w.store;
  }

  succeed : Env Cfg → Option ℕ → World Cfg → Result × World Cfg
  unfolding keep_books finish
  succeed env none w = (ok, finish env w)
  succeed env (some id) w =
      if env.books_ok
      then (ok, finish env (record w { store = keep_books env id w.store }))
      else (raised, w)

  -- No tunnel that is known to be good is left: stop what runs, and close the gateway.
  close : Env Cfg → World Cfg → World Cfg
  unfolding run_stop run_guard
  close env w = run_guard env.guard_ok (run_stop env.stop w)

  -- The tunnel of the node that was active, on the config that was put back.
  restore : Env Cfg → World Cfg → Bool × World Cfg
  unfolding run_reload run_net is_ready
  restore env w =
      let w' = run_reload env.reload_previous w in
      if is_ready env.reload_previous
      then (env.net_previous_ok, run_net env.net_previous_ok w')
      else (false, w')

  recover_on : Env Cfg → Bool → Bool → World Cfg → World Cfg
  unfolding restore close
  recover_on env previous rolled_back w =
      let r = restore env w in
      if previous && rolled_back then (if r.0 then r.1 else close env r.1) else close env w

module _ {Cfg : Type 0} (digest : Cfg → String) where
  -- `mgr.rollback()`, where an exception counts as no rollback.
  roll_back : Env Cfg → World Cfg → Bool × World Cfg
  roll_back env w =
      let r = rollback digest env.rollback_install env.rollback_mark w.disk in
      (elim r.0 [ none ↦ false | some b ↦ b ], record w { disk = r.1 })

  -- The handler of a failure after the config was written.
  recover : Env Cfg → Bool → Bool → World Cfg → World Cfg
  unfolding recover_on roll_back
  recover env irreversible previous w =
      let r = roll_back env w in
      if irreversible then recover_on env previous false w else recover_on env previous r.0 r.1

  pub fail : Env Cfg → Bool → Bool → World Cfg → Result × World Cfg
  unfolding recover set_pending
  fail env irreversible previous w =
      (failed, set_pending blank (recover env irreversible previous w))

  after_net : Env Cfg → Bool → Bool → Option ℕ → Bool → World Cfg → Result × World Cfg
  unfolding run_net succeed fail
  after_net env irreversible previous id true w = succeed env id (run_net true w)
  after_net env irreversible previous id false w = fail env irreversible previous (run_net false w)

  after_reload : Env Cfg → Bool → Bool → Option ℕ → Reload → World Cfg → Result × World Cfg
  unfolding run_reload after_net
  after_reload env irreversible previous id ready w =
      after_net env irreversible previous id env.net_ok (run_reload ready w)
  after_reload env irreversible previous id not_ready w =
      fail env irreversible previous (run_reload not_ready w)
  after_reload env irreversible previous id reload_raised w =
      fail env irreversible previous (run_reload reload_raised w)

  -- From the reload on.
  bring_up : Env Cfg → Bool → Bool → Option ℕ → World Cfg → Result × World Cfg
  unfolding after_reload
  bring_up env irreversible previous id w = after_reload env irreversible previous id env.reload w

  mark_pending : Env Cfg → Bool → Bool → Option ℕ → World Cfg → Result × World Cfg
  unfolding bring_up set_pending
  mark_pending env irreversible previous none w = bring_up env irreversible previous none w
  mark_pending env irreversible previous (some id) w =
      if env.pending_ok
      then bring_up env irreversible previous (some id) (set_pending (num id) w)
      else (raised, w)

  write_config : Env Cfg → Bool → Cfg → Disk Cfg → Outcome × Disk Cfg
  write_config env irreversible cfg d =
      if irreversible
      then apply_irreversible env.valid env.mark env.install cfg d
      else apply digest env.valid env.writes cfg d

  apply_built : Env Cfg → Bool → Option ℕ → Cfg → World Cfg → Result × World Cfg
  unfolding write_config is_applied mark_pending has_previous
  apply_built env irreversible id cfg w =
      let r = write_config env irreversible cfg w.disk in
      let w' : World Cfg = record w { disk = r.1 } in
      if is_applied r.0
      then mark_pending env irreversible (has_previous env.has_node w.store.active_node_id) id w'
      else (failed, w')

  -- `apply_node`, for a node with this id.
  unfoldable pub apply_node : Env Cfg → Bool → Option ℕ → World Cfg → Result × World Cfg
  unfolding apply_built
  apply_node env irreversible id w = elim env.built [
    | none ↦ (failed, w)
    | some cfg ↦ apply_built env irreversible id cfg w
  ]
