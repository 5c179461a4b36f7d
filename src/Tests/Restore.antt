-- ===== src/Tests/Restore.antt =====
-- controller.py, `restore_backup`, on documents that are numbers.
use v2pi.Base.{ℕ, ◌≡◌, ◌≢◌, ◌⊎◌, inr, refl, true, false, none, some}
use v2pi.Apply.{tunnel, num, blank}
use v2pi.Restore.{Candidate, link_absent, Gateway, Env, unproven, proven, ok, restore_backup}
use v2pi.Restore.Phases.{IsRestored, IsUntouched, IsDisconnected, restore_backup_cases}
use v2pi.Restore.Unarmed.{IsLicensed, restore_backup-IsLicensed}

abbrev candidate : Candidate
candidate = record {
  iface = "eth0.7";
  addr4 = "10.0.0.1/24";
  addr6 = "";
  vlan = true;
  link_state = link_absent;
  armed = true;
}

abbrev before : Gateway ℕ
before = record {
  running = true;
  net = tunnel;
  undo = none;
  passes = 3;
  content = 1;
  rows = record {
    active_node_id = num 4;
    prev_active_node_id = blank;
    pending_active_node_id = blank;
    active_since = num 9;
  };
}

abbrev smooth : Env ℕ
smooth = record {
  validated = some 2;
  snapshot_ok = true;
  candidate = some (some candidate);
  preflight_recorded = proven;
  plan_rendered = true;
  settled = true;
  stopped = true;
  guard_ok = true;
  armed = proven;
  imported = true;
  provisioned = true;
  restored_guard_ok = true;
  reconfigured = true;
  committed = true;
  rows_cleared = true;
  undone = true;
  previous_guard_ok = true;
}

-- The record is armed, but that cannot be read back.
abbrev doubtful : Env ℕ
doubtful = record smooth { armed = unproven }

-- And it cannot be settled: an armed record stays, though the host has not been provisioned.
left_armed : (restore_backup (record doubtful { settled = false }) before).1.undo ≡ some candidate
unfolding restore_backup v2pi.Restore.unarmed_candidate
left_armed = refl

is_ok : (restore_backup smooth before).0 ≡ ok
unfolding restore_backup v2pi.Restore.unarmed_candidate
is_ok = refl

restore_backup_cases_example :
    (((restore_backup smooth before).0 ≡ ok)
      × ((doc : ℕ) × ((some 2 ≡ some doc) × IsRestored doc (restore_backup smooth before).1)))
    ⊎ (((restore_backup smooth before).0 ≢ ok)
        × (IsUntouched before (restore_backup smooth before).1
            ⊎ IsDisconnected before (restore_backup smooth before).1))
restore_backup_cases_example = restore_backup_cases smooth before

restore_backup-IsLicensed_example : IsLicensed before (restore_backup doubtful before).1
restore_backup-IsLicensed_example = restore_backup-IsLicensed doubtful before refl (inr refl)
