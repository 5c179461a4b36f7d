-- ===== src/Tests/Stats.antt =====
-- stats/history.py and the table traffic_minutes: two samples, a death of the panel, and a sample from
-- the future.
use v2pi.Base.{ℕ, ◌≡◌, ◌≤◌, refl, arith, true, false, none, some, List, [], ◌∷◌, length}
use v2pi.Base.Int.{pos}
use v2pi.Stats.{Counters, add_counters}
use v2pi.Stats.Recorder.{FlushEnv, System, new_recorder, max_pending_minutes, accumulate_total}
use v2pi.Stats.Recorder.Exact.{full, IsExact, sampled, restarted, run, run-IsExact}
use v2pi.Stats.Recorder.Queue.{accumulate_total-IsBounded}
use v2pi.Stats.Minutes.{
  Row, newest, within, add_traffic_minute, traffic_total, traffic_days, sum_days,
  add_traffic_minute-total, traffic_days-total,
}

abbrev bytes : ℕ → ℕ → Counters
bytes up down = record { up = up; down = down }

-- The commit of the last write fails.
abbrev failing : FlushEnv
failing = record {
  baseline_ok = true;
  total_ok = true;
  commit_ok = false;
  minutes_ok = 1;
  clock = 7;
}

abbrev system : System
system = record {
  store = record { baseline = some (bytes 10 20); total = bytes 100 200; minutes = [] };
  recorder = new_recorder (some (bytes 10 20));
}

run-IsExact_example : IsExact (bytes 100 200) (bytes 10 20) (bytes 30 50) (
    run
      (sampled failing (bytes 15 25) 0 5 ∷ restarted ∷ sampled failing (bytes 30 50) 0 9 ∷ [])
      system)
unfolding new_recorder
run-IsExact_example =
    run-IsExact (bytes 100 200) (bytes 10 20) (bytes 10 20)
      (sampled failing (bytes 15 25) 0 5 ∷ restarted ∷ sampled failing (bytes 30 50) 0 9 ∷ [])
      system (omega arith, omega arith, (omega arith, omega arith, (omega arith, omega arith, tt)))
      (record {
        has_baseline = refl;
        has_prev = refl;
        stored_up = refl;
        stored_down = refl;
        seen_up = refl;
        seen_down = refl;
        base_up = omega arith;
        base_down = omega arith;
        shown_up = omega arith;
        shown_down = omega arith;
      })

abbrev queued : System
queued = record system {
  recorder = record system.recorder {
    pending_minutes =
        record { min = 1; bytes = bytes 1 1 } ∷ record { min = 2; bytes = bytes 2 2 } ∷ [];
    minute = some (record { min = 3; bytes = bytes 3 3 });
  };
}

accumulate_total-IsBounded_example :
    length (accumulate_total full failing (some (bytes 30 50)) 0 9 queued).recorder.pending_minutes
    ≤ max_pending_minutes
unfolding new_recorder
accumulate_total-IsBounded_example =
    accumulate_total-IsBounded full failing (some (bytes 30 50)) 0 9 queued (omega arith)

abbrev rows : List Row
rows =
    record { minute = 1000; bytes = bytes 5 5 } ∷ record { minute = 3000; bytes = bytes 6 6 } ∷ []

add_traffic_minute-total_example :
    traffic_total 900 none (add_traffic_minute 9000000 (bytes 1 1) rows)
    ≡ add_counters (bytes 1 1) (traffic_total 900 none rows)
unfolding newest within
add_traffic_minute-total_example =
    add_traffic_minute-total 9000000 900 3000 none (bytes 1 1) rows refl (omega arith)

traffic_days-total_example :
    sum_days (traffic_days 900 (pos 10800) rows) ≡ traffic_total 900 none rows
traffic_days-total_example = traffic_days-total 900 (pos 10800) rows
