-- ===== src/Tests/Scheduler.antt =====
-- subs/scheduler.py with two subscriptions.
use mathlib.Core.List.{Memᴰ}
use v2pi.Base.{
  ℕ, ◌≡◌, ◌≢◌, ◌≤◌, ◌+◌, ◌*◌, ◌-◌, refl, arith, Bool, true, false, leb, ◌&&◌, get_or, Option, none,
  some, List, [], ◌∷◌, length, any_of,
}
use v2pi.Base.Assoc.{lookup}
use v2pi.Subs.Scheduler.{
  Sub, Scheduler, Future, running, raised, finished, Futures, TickEnv, new_scheduler, second,
  in_flight, due_sub, score, retry_delay, reap_inflight, planned, run_once,
}
use v2pi.Subs.Scheduler.Due.{is_idle}
use v2pi.Subs.Scheduler.Planned.{is_due}
use v2pi.Subs.Scheduler.Running.{run_once-keeps_running}

abbrev sub : Sub
sub = record { id = 1; interval_sec = 3600; enabled = true; last_fetched = some 1000 }

abbrev never_fetched : Sub
never_fetched = record { id = 2; interval_sec = 3600; enabled = true; last_fetched = none }

-- The refresh of the first one runs on.
abbrev scheduler : Scheduler
scheduler = record new_scheduler { inflight = 1 ∷ [] }

abbrev futures : Futures
futures = record { holds = λ i. running; percent = λ i. 100 }

abbrev env : TickEnv
env = record {
  now = 6000;
  wall = 2000;
  subs = sub ∷ never_fetched ∷ [];
  old = futures;
  batch = futures;
}

idle : is_idle sub new_scheduler ≡ true
unfolding v2pi.Base.any_of
idle = refl

-- The one is refreshed already, the other has never been.
held_back : is_due 6000 2000 sub (reap_inflight futures 6000 scheduler) ≡ false
unfolding reap_inflight v2pi.Base.any_of lookup
held_back = refl

due_now : is_due 6000 2000 never_fetched (reap_inflight futures 6000 scheduler) ≡ true
unfolding reap_inflight v2pi.Base.any_of lookup v2pi.Subs.Scheduler.age_since
due_now = refl

tracked : in_flight 1 scheduler ≡ true
unfolding v2pi.Base.any_of
tracked = refl

run_once-keeps_running_example :
    (in_flight 1 (run_once env scheduler) ≡ true)
    × ((s : Sub) → Memᴰ s (planned env scheduler).0 → s.id ≢ 1)
run_once-keeps_running_example = run_once-keeps_running env 1 scheduler tracked refl
