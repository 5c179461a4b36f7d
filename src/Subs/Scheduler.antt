-- ===== src/Subs/Scheduler.antt =====
-- subs/scheduler.py: which subscriptions are refreshed when. Times are hundredths of a second on the
-- monotonic clock, so that a jitter in percent is exact; what a future holds when it is looked at is
-- an argument of the step.
pub mod Due
pub mod Scores
pub mod Flight
pub mod Running
pub mod Planned
use v2pi.Base.{
  ℕ, zero, suc, ◌+◌, ◌-◌, ◌*◌, ◌^◌, ◌/◌, min, Bool, true, false, not, ◌&&◌, ◌||◌, ltb, leb, ◌==◌,
  is_some, get_or, Option, none, some, List, [], ◌∷◌, ◌++◌, map, keep, any_of, if◌then◌else◌,
}
use v2pi.Base.Assoc.{lookup, put, pop}

-- One second.
abbrev pub second : ℕ
second = 100

-- The columns of `subscriptions` that the scheduler reads. `last_fetched` is the second that the ISO
-- text names; none stands for no text and for one that cannot be parsed.
pub record Sub : Type 0 where
  pub id : ℕ
  pub interval_sec : ℕ
  pub enabled : Bool
  pub last_fetched : Option ℕ

-- `at - less`: the seed of `_last_run` may lie before the start of the clock.
pub record Stamp : Type 0 where
  pub at : ℕ
  pub less : ℕ

-- What a future holds: nothing yet, a cancellation, an exception, or a result that is ok or not.
pub data Future : Type 0 where
  running cancelled raised : Future
  finished : Bool → Future

-- `_inflight` is the list of its keys; the futures stand in the arguments.
pub record Scheduler : Type 0 where
  pub last_run : List (ℕ × Stamp)
  pub retry_at : List (ℕ × ℕ)
  pub failures : List (ℕ × ℕ)
  pub inflight : List ℕ
  pub closing : Bool
  pub task : Bool
  pub pool : Bool

-- `__init__`
abbrev pub new_scheduler : Scheduler
new_scheduler = record {
  last_run = [];
  retry_at = [];
  failures = [];
  inflight = [];
  closing = false;
  task = false;
  pool = false;
}

-- `_age_since`, in seconds: a time from the future has the age 0.
unfoldable pub age_since : ℕ → Option ℕ → Option ℕ
age_since wall none = none
age_since wall (some fetched) = some (wall - fetched)

abbrev pub is_known : List Sub → ℕ → Bool
is_known subs i = any_of (λ s. s.id == i) subs

-- `_forget_deleted`, without the locks of service.py.
unfoldable pub forget_deleted : List Sub → Scheduler → Scheduler
forget_deleted subs s = record s {
  last_run = keep (λ (e : ℕ × Stamp). is_known subs e.0) s.last_run;
  retry_at = keep (λ (e : ℕ × ℕ). is_known subs e.0) s.retry_at;
  failures = keep (λ (e : ℕ × ℕ). is_known subs e.0) s.failures;
}

abbrev pub in_flight : ℕ → Scheduler → Bool
in_flight i s = any_of (λ j. j == i) s.inflight

-- The first sight of a subscription since the start.
first_sight : ℕ → Sub → Option ℕ → Scheduler → Bool × Scheduler
first_sight now sub none s = (true, s)
first_sight now sub (some age) s =
    if ltb age sub.interval_sec
    then (
      false,
      record s { last_run = put sub.id (record { at = now; less = age * second }) s.last_run },
    )
    else (true, s)

-- No retry is armed: the interval counts.
by_interval : ℕ → ℕ → Sub → Option Stamp → Scheduler → Bool × Scheduler
unfolding first_sight
by_interval now wall sub none s = first_sight now sub (age_since wall sub.last_fetched) s
by_interval now wall sub (some last) s =
    (leb (last.at + sub.interval_sec * second) (now + last.less), s)

by_retry : ℕ → ℕ → Sub → Option ℕ → Scheduler → Bool × Scheduler
unfolding by_interval
by_retry now wall sub (some at) s = (leb at now, s)
by_retry now wall sub none s = by_interval now wall sub (lookup sub.id s.last_run) s

-- One turn of the loop of `due_subs`.
unfoldable pub due_sub : ℕ → ℕ → Sub → Scheduler → Bool × Scheduler
unfolding by_retry
due_sub now wall sub s =
    if sub.interval_sec == 0 || not sub.enabled
    then (false, s)
    else if in_flight sub.id s
    then (false, s)
    else by_retry now wall sub (lookup sub.id s.retry_at) s

unfoldable pub due_loop : ℕ → ℕ → List Sub → Scheduler → List Sub × Scheduler
unfolding due_sub
due_loop now wall [] s = ([], s)
due_loop now wall (sub ∷ subs) s =
    let (due, s₁) = due_sub now wall sub s in
    let (rest, s₂) = due_loop now wall subs s₁ in (if due then sub ∷ rest else rest, s₂)

unfoldable pub due_subs : ℕ → ℕ → List Sub → Scheduler → List Sub × Scheduler
unfolding due_loop forget_deleted
due_subs now wall subs s = due_loop now wall subs (forget_deleted subs s)

-- `30.0 * 2 ** min(failures - 1, 5) * uniform(0.8, 1.2)`, and at most a quarter of an hour.
unfoldable pub retry_delay : ℕ → ℕ → ℕ
retry_delay failures percent = min (900 * second) (30 * 2 ^ min (failures - 1) 5 * percent)

-- `_score`
unfoldable pub score : ℕ → ℕ → Bool → ℕ → Scheduler → Scheduler
score percent i true now s = record s {
  last_run = put i (record { at = now; less = 0 }) s.last_run;
  retry_at = pop i s.retry_at;
  failures = pop i s.failures;
}
score percent i false now s =
    let failures = get_or (lookup i s.failures) 0 + 1 in
    record s {
      failures = put i failures s.failures;
      retry_at = put i (now + retry_delay failures percent) s.retry_at;
    }

unfoldable pub land : ℕ → Scheduler → Scheduler
land i s = record s { inflight = keep (λ j. not (j == i)) s.inflight }

-- What is done with a future, here and in the batch: one that runs on stays, and is not scored.
unfoldable pub collect : ℕ → ℕ → Future → ℕ → Scheduler → Scheduler
unfolding score land
collect percent i running now s = s
collect percent i cancelled now s = land i s
collect percent i raised now s = score percent i false now (land i s)
collect percent i (finished ok) now s = score percent i ok now (land i s)

-- What the futures of the ids hold, and the jitter of each.
pub record Futures : Type 0 where
  pub holds : ℕ → Future
  pub percent : ℕ → ℕ

unfoldable pub collect_all : Futures → List ℕ → ℕ → Scheduler → Scheduler
unfolding collect
collect_all f [] now s = s
collect_all f (i ∷ ids) now s = collect_all f ids now (collect (f.percent i) i (f.holds i) now s)

-- `_reap_inflight`, over a copy of the dict.
unfoldable pub reap_inflight : Futures → ℕ → Scheduler → Scheduler
unfolding collect_all
reap_inflight f now s = collect_all f s.inflight now s

-- `pool.submit`, and `_inflight[sub.id] = future`
unfoldable pub submit_all : List Sub → Scheduler → Scheduler
submit_all [] s = s
submit_all (sub ∷ subs) s =
    submit_all subs
      (record s { inflight = if in_flight sub.id s then s.inflight else s.inflight ++ sub.id ∷ [] })

-- A tick: the two times, the rows, what the old futures hold, and what the new ones do at the
-- deadline of the batch.
pub record TickEnv : Type 0 where
  pub now : ℕ
  pub wall : ℕ
  pub subs : List Sub
  pub old : Futures
  pub batch : Futures

-- The subscriptions that are due at the tick, and the scheduler before they are submitted.
unfoldable pub planned : TickEnv → Scheduler → List Sub × Scheduler
unfolding due_subs reap_inflight
planned env s = due_subs env.now env.wall env.subs (reap_inflight env.old env.now s)

submit_batch : TickEnv → List Sub × Scheduler → Scheduler
submit_batch env ([], s) = s
submit_batch env (sub ∷ due, s) =
    collect_all env.batch (map (λ d. d.id) (sub ∷ due)) env.now
      (submit_all (sub ∷ due) (record s { pool = true }))

unfoldable pub run_once : TickEnv → Scheduler → Scheduler
unfolding planned submit_batch
run_once env s = if s.closing then s else submit_batch env (planned env s)

unfoldable pub start : Scheduler → Scheduler
start s = if s.task then s else record s { closing = false; pool = true; task = true }

-- `stop`, with `_drain`: whatever the wait brings, nothing is tracked afterwards.
unfoldable pub stop : Scheduler → Scheduler
stop s =
    let stopped = record s { closing = true; task = false } in
    if s.pool then record stopped { pool = false; inflight = [] } else stopped
