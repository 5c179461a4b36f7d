-- ===== src/Tests/Supervisor.antt =====
-- xray_supervisor/supervisor.py with configs that are numbers.
use v2pi.Base.{ℕ, String, ◌≡◌, refl, true, false, none, some, [], ◌∷◌}
use v2pi.Base.Int.{pos}
use v2pi.Supervisor.{
  object, spawned, Signals, Supervisor, fresh, StartEnv, WaitEnv, start, capture_stderr, reload,
}
use v2pi.Supervisor.Invariant.{IsSound, Reach, made, step, started, wrote, Reach-IsSound}
use v2pi.Supervisor.Restart.{IsServing, reload-true}

abbrev digest : ℕ → String
digest c = "d"

-- A child that yields to SIGTERM, one that yields to nothing, a start that works and one that may not.
abbrev yields : Signals
yields = record { on_term = some (pos 0); on_kill = none }

abbrev unyielding : Signals
unyielding = record { on_term = none; on_kill = none }

abbrev good_start : StartEnv ℕ
good_start = record { guard = some true; config = object 7; spawn = spawned 42 }

abbrev revoked_start : StartEnv ℕ
revoked_start = record good_start { guard = some false }

abbrev ready_wait : WaitEnv
ready_wait = record {
  has_check = true;
  died_at_once = none;
  ticks = record { died = none; ready = true } ∷ [];
  signals = yields;
}

abbrev empty : Supervisor ℕ
empty = fresh

abbrev serving : Supervisor ℕ
serving = record empty {
  proc = some (record { pid = 41; exit = none });
  want_running = true;
  redaction_config = some 6;
  loaded_digest = some "d";
}

up : (reload digest yields good_start ready_wait serving).0 ≡ true
unfolding reload
up = refl

reload-true_example :
    IsServing digest good_start (reload digest yields good_start ready_wait serving).1
reload-true_example = reload-true digest yields good_start ready_wait serving up

stuck : (reload digest unyielding good_start ready_wait serving).0 ≡ false
unfolding reload
stuck = refl

started_once : Reach digest (capture_stderr "panic" (start digest good_start empty))
started_once =
    step (step made (started good_start empty)) (wrote "panic" (start digest good_start empty))

Reach-IsSound_example : IsSound (capture_stderr "panic" (start digest good_start empty))
Reach-IsSound_example = Reach-IsSound digest started_once
