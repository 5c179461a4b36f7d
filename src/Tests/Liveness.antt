-- ===== src/Tests/Liveness.antt =====
-- health/liveness.py at a few ticks.
use v2pi.Base.{ℕ, ◌≡◌, ◌<◌, refl, arith, true, false, none, some, List, [], ◌∷◌, length}
use v2pi.Supervisor.{error}
use v2pi.Health.Failover.{answered}
use v2pi.Health.Liveness.{Watchdog, WatchEnv, watchdog, ReconcileEnv, ProbeEnv}
use v2pi.Health.Liveness.Pacing.{Tick, watch}
use v2pi.Health.Liveness.Episodes.{CrashTicks, watch_flood}

-- xray is down, and the restart does not bring it up.
abbrev crash : WatchEnv
crash = record {
  stopping = false;
  mode = error;
  stopping_locked = false;
  mode_locked = error;
  ready = false;
}

abbrev new_dog : Watchdog
new_dog = record { attempts = 0; last_ready_at = 0; next_restart_at = 0; reported = false }

-- It was up at 50, long ago.
abbrev old_dog : Watchdog
old_dog = record { attempts = 0; last_ready_at = 50; next_restart_at = 0; reported = false }

abbrev crashes : List Tick
crashes = (1000, crash) ∷ (1020, crash) ∷ (1040, crash) ∷ []

restarted : (watchdog crash 1000 new_dog).restarted ≡ true
unfolding watchdog
restarted = refl

some_restarts : 0 < (watch crashes new_dog).restarts
unfolding watchdog
some_restarts = omega arith

crashing : CrashTicks 1000 crashes
crashing = (
  omega arith,
  refl,
  refl,
  refl,
  refl,
  refl,
  (omega arith, refl, refl, refl, refl, refl, (omega arith, refl, refl, refl, refl, refl, tt)),
)

watch_flood_example : length (watch crashes old_dog).events ≡ 3
watch_flood_example =
    watch_flood 1000 crashes old_dog (λ e. omega (arith, e)) (omega arith) (omega arith) crashing

abbrev probe : ProbeEnv
probe = record {
  stopping = false;
  running = true;
  real_through = λ n st. (answered false none none none, st);
  stopping_then = true;
  checked_at = 1010;
  between = λ st. st;
  stopping_last = false;
}

abbrev pending : ReconcileEnv
pending = record { stopping = false; pending = some true; stopping_locked = false; done = false }

abbrev absent : ReconcileEnv
absent = record pending { pending = some false }

abbrev attempts : List (ℕ × ReconcileEnv)
attempts = (1000, pending) ∷ (1020, pending) ∷ []
