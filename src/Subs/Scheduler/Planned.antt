-- ===== src/Subs/Scheduler/Planned.antt =====
-- subs/scheduler.py: which subscriptions a tick submits.
use v2pi.Base.{ℕ, ◌+◌, ◌*◌, Bool, true, ◌&&◌, leb, Option, none, some, List}
use v2pi.Base.Assoc.{lookup}
use v2pi.Subs.Scheduler.{Sub, Stamp, second, age_since, Scheduler}
use v2pi.Subs.Scheduler.Due.{is_idle}

-- Never fetched, or fetched an interval ago.
abbrev is_old : ℕ → Sub → Option ℕ → Bool
is_old wall sub none = true
is_old wall sub (some age) = leb sub.interval_sec age

-- The last run was an interval ago; before the first one the age of what was fetched counts.
abbrev has_passed : ℕ → ℕ → Sub → Option Stamp → Bool
has_passed now wall sub (some last) = leb (last.at + sub.interval_sec * second) (now + last.less)
has_passed now wall sub none = is_old wall sub (age_since wall sub.last_fetched)

-- Where a retry is armed, it alone counts.
abbrev comes_due : ℕ → ℕ → Sub → Option ℕ → Option Stamp → Bool
comes_due now wall sub (some at) last = leb at now
comes_due now wall sub none last = has_passed now wall sub last

-- A subscription's turn has come.
abbrev pub is_due : ℕ → ℕ → Sub → Scheduler → Bool
is_due now wall sub s =
    is_idle sub s && comes_due now wall sub (lookup sub.id s.retry_at) (lookup sub.id s.last_run)
