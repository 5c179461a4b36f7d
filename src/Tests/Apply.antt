-- ===== src/Tests/Apply.antt =====
-- controller.py, `apply_node`, on configs that are texts: node 2 over node 1.
use v2pi.Base.{◌≡◌, ◌⊎◌, refl, true, false, some, String}
use v2pi.XrayConfig.Manager.{content, apply, write_atomic}
use v2pi.Apply.{World, Env, serves, tunnel, num, blank, ready, not_ready, stopped, apply_node}
use v2pi.Apply.Applied.{IsUp, apply_node-IsUp}
use v2pi.Apply.Closed.{IsUndone, IsRestored, IsClosed}
use v2pi.Apply.Recovered.{Was, apply_node-failed}
use v2pi.Apply.Boot.{reported, reapply_active_node, reapply_active_node-resumes}
use v2pi.Tests.Config.{digest, good, writes, disk}

abbrev before : World String
before = record {
  disk = disk;
  process = serves (content "a");
  net = tunnel;
  store = record {
    active_node_id = num 1;
    prev_active_node_id = blank;
    pending_active_node_id = blank;
    active_since = some 5;
    session_base_up = 0;
    session_base_down = 0;
    data_used_up = 7;
    data_used_down = 9;
    rw_pending = false;
  };
}

abbrev smooth : Env String
smooth = record {
  built = some "b";
  valid = true;
  writes = writes;
  mark = good;
  install = good;
  pending_ok = true;
  reload = ready;
  net_ok = true;
  rollback_install = good;
  rollback_mark = good;
  reload_previous = ready;
  net_previous_ok = true;
  stop = stopped;
  guard_ok = true;
  books_ok = true;
  now = 10;
  has_node = λ n. true;
  marker_read = true;
  marker_written = true;
  marker_read_back = true;
}

-- xray does not come up on the new config.
abbrev broken : Env String
broken = record smooth { reload = not_ready }

apply_node-IsUp_example :
    (cfg : String) × ((some "b" ≡ some cfg)
      × IsUp 2 cfg before (apply_node digest smooth false (some 2) before).1)
unfolding apply_node apply write_atomic
apply_node-IsUp_example = apply_node-IsUp digest smooth false 2 before refl

apply_node-failed_example :
    let after = (apply_node digest broken false (some 2) before).1 in
    ((after.process ≡ before.process)
      × (after.net ≡ before.net)
      × (after.store ≡ before.store)
      × (after.disk.live ≡ before.disk.live))
    ⊎ (IsUndone (num 1) blank after
        × (((c : String) × (Was c (content "a") × IsRestored c after × (false ≡ false)))
            ⊎ IsClosed broken after))
unfolding apply_node apply write_atomic
apply_node-failed_example = apply_node-failed digest broken false (some 2) before refl

-- The database is locked when the switch is to be recorded.
abbrev locked : Env String
locked = record smooth { books_ok = false }

reapply_active_node-resumes_example :
    let died = (apply_node digest locked false (some 2) before).1 in
    let r = apply_node digest smooth false (some 2) died in
    reapply_active_node digest smooth false died ≡ (some (reported r.0), r.1)
unfolding apply_node apply write_atomic
reapply_active_node-resumes_example =
    reapply_active_node-resumes digest locked smooth false false 2 before refl refl
      (λ e. absurd (cc e)) refl
