-- ===== src/Subs/Scheduler/Scores.antt =====
-- subs/scheduler.py: the pause after failures.
use v2pi.Base.{
  ℕ, zero, suc, ◌+◌, ◌-◌, ◌*◌, ◌^◌, min, ◌≡◌, ◌≤◌, arith, ◌∙◌, true, false, get_or, some, List, [],
  ◌∷◌, length,
}
use native.Mathlib.Nat.{pow-suc}
use v2pi.Base.Assoc.{lookup, lookup-put, lookup-pop}
use v2pi.Subs.Scheduler.{Scheduler, second, score, retry_delay}

pow_pos : (k : ℕ) → 1 ≤ 2 ^ k
pow_pos zero = omega arith
pow_pos (suc k) = rw pow-suc (omega (arith, pow_pos k))

times_pos : (p percent : ℕ) → 1 ≤ p → 80 ≤ percent → 2400 ≤ 30 * p * percent
times_pos p percent one low = grind arith

-- The pause after a failure is at least 24 s and at most 900 s, for a jitter of 80 to 120 percent.
pub retry_delay_bounds :
    (failures percent : ℕ)
    → 80 ≤ percent
    → percent ≤ 120
    → (24 * second ≤ retry_delay failures percent) × (retry_delay failures percent ≤ 900 * second)
unfolding retry_delay
retry_delay_bounds failures percent low high = (
  omega (arith, times_pos (2 ^ min (failures - 1) 5) percent (pow_pos (min (failures - 1) 5)) low),
  omega arith,
)

-- The failures of one subscription, each with its jitter and time.
abbrev pub fail_all : ℕ → List (ℕ × ℕ) → Scheduler → Scheduler
fail_all i [] s = s
fail_all i ((percent, now) ∷ rest) s = fail_all i rest (score percent i false now s)

fail_all-failures :
    (i : ℕ) (runs : List (ℕ × ℕ)) (s : Scheduler)
    → get_or (lookup i (fail_all i runs s).failures) 0
      ≡ get_or (lookup i s.failures) 0 + length runs
unfolding score
fail_all-failures i [] s = omega arith
fail_all-failures i ((percent, now) ∷ rest) s =
    fail_all-failures i rest (score percent i false now s)
    ∙ rw (lookup-put i i (get_or (lookup i s.failures) 0 + 1) s.failures) (ground arith)

-- A success resets the backoff: after it, and then the failures `runs`, the next failure arms the pause
-- that belongs to one more failure than there are runs.
pub score-streak :
    (i ok_percent ok_at percent now : ℕ) (runs : List (ℕ × ℕ)) (s : Scheduler)
    → lookup i
        (score percent i false now (fail_all i runs (score ok_percent i true ok_at s))).retry_at
      ≡ some (now + retry_delay (length runs + 1) percent)
unfolding score
score-streak i ok_percent ok_at percent now runs s =
    lookup-put i i _ _
    ∙ rw (fail_all-failures i runs (score ok_percent i true ok_at s))
        (rw (lookup-pop i i s.failures) (ground arith))
