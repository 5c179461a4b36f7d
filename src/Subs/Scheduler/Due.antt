-- ===== src/Subs/Scheduler/Due.antt =====
-- subs/scheduler.py: when a subscription is due next.
use v2pi.Base.{
  ℕ, ◌+◌, ◌-◌, ◌*◌, ◌≡◌, ◌≤◌, ◌<◌, arith, ap, ◌∙◌, Bool, true, false, not, ◌&&◌, ◌||◌, leb, ◌==◌,
  get_or, none, some,
}
use v2pi.Base.Assoc.{lookup, put, lookup-put, lookup-pop}
use v2pi.Subs.Scheduler.{
  Sub, Stamp, Scheduler, second, age_since, in_flight, due_sub, by_interval, score, retry_delay,
}

-- It can be refreshed at all: it is enabled, has an interval, and no refresh of it runs.
abbrev pub is_idle : Sub → Scheduler → Bool
is_idle sub s = not (sub.interval_sec == 0 || not sub.enabled) && not (in_flight sub.id s)

due_sub-retry :
    (now wall at : ℕ) (sub : Sub) (s : Scheduler)
    → lookup sub.id s.retry_at ≡ some at
    → (due_sub now wall sub s).0 ≡ (is_idle sub s && leb at now)
unfolding due_sub
due_sub-retry now wall at sub s e = rw (e, due_sub) (ground arith)

due_sub-interval :
    (now wall : ℕ) (last : Stamp) (sub : Sub) (s : Scheduler)
    → lookup sub.id s.retry_at ≡ none
    → lookup sub.id s.last_run ≡ some last
    → (due_sub now wall sub s).0
      ≡ (is_idle sub s && leb (last.at + sub.interval_sec * second) (now + last.less))
unfolding due_sub
due_sub-interval now wall last sub s e f = rw (e, due_sub) (rw (f, by_interval) (ground arith))

-- After a success a subscription is due exactly when its interval has passed, if it is enabled, has
-- an interval, and no refresh of it runs.
pub score-due_ok :
    (percent now later wall : ℕ) (sub : Sub) (s : Scheduler)
    → (due_sub later wall sub (score percent sub.id true now s)).0
      ≡ (is_idle sub s && leb (now + sub.interval_sec * second) later)
unfolding score due_sub
score-due_ok percent now later wall sub s =
    due_sub-interval later wall (record { at = now; less = 0 }) sub
      (score percent sub.id true now s) (lookup-pop sub.id sub.id s.retry_at ∙ ground arith)
      (lookup-put sub.id sub.id _ s.last_run ∙ ground arith)
    ∙ ground arith

-- After a failure a subscription is due exactly when the pause has passed that the number of
-- failures sets, if it is enabled, has an interval, and no refresh of it runs.
pub score-due_failed :
    (percent now later wall : ℕ) (sub : Sub) (s : Scheduler)
    → (due_sub later wall sub (score percent sub.id false now s)).0 ≡ (
        is_idle sub s
        && leb (now + retry_delay (get_or (lookup sub.id s.failures) 0 + 1) percent) later)
unfolding score due_sub
score-due_failed percent now later wall sub s =
    due_sub-retry later wall _ sub (score percent sub.id false now s)
      (lookup-put sub.id sub.id _ s.retry_at ∙ ground arith)

seeded : ℕ → ℕ → Sub → Scheduler → Scheduler
seeded now age sub s = record s {
  last_run = put sub.id (record { at = now; less = age * second }) s.last_run;
}

due_sub-seeds :
    (now wall age : ℕ) (sub : Sub) (s : Scheduler)
    → is_idle sub s ≡ true
    → lookup sub.id s.retry_at ≡ none
    → lookup sub.id s.last_run ≡ none
    → age_since wall sub.last_fetched ≡ some age
    → age < sub.interval_sec
    → due_sub now wall sub s ≡ (false, seeded now age sub s)
unfolding due_sub seeded
due_sub-seeds now wall age sub s idle no_retry unseen aged young =
    rw (no_retry, due_sub) (rw (unseen, by_interval) (rw aged (ground arith)))

-- An enabled subscription with an interval and no running refresh, which is seen for the first time
-- since a start and was fetched less than an interval ago, is not due then, and later is due exactly
-- when the rest of the interval has passed.
pub due_sub-first_sight :
    (now wall later wall' age : ℕ) (sub : Sub) (s : Scheduler)
    → is_idle sub s ≡ true
    → lookup sub.id s.retry_at ≡ none
    → lookup sub.id s.last_run ≡ none
    → age_since wall sub.last_fetched ≡ some age
    → age < sub.interval_sec
    → now ≤ later
    → ((due_sub now wall sub s).0 ≡ false)
      × ((due_sub later wall' sub (due_sub now wall sub s).1).0
          ≡ leb (now + (sub.interval_sec - age) * second) later)
unfolding due_sub seeded
due_sub-first_sight now wall later wall' age sub s idle no_retry unseen aged young le =
    let seeds = due_sub-seeds now wall age sub s idle no_retry unseen aged young in
    (
      ap (λ r. r.0) seeds,
      ap (λ r. (due_sub later wall' sub r.1).0) seeds
          ∙ due_sub-interval later wall' (record { at = now; less = age * second }) sub
              (seeded now age sub s) no_retry (lookup-put sub.id sub.id _ s.last_run ∙ ground arith)
          ∙ ground (arith, idle),
    )
