-- ===== src/Health/Liveness/Pacing.antt =====
-- health/liveness.py: how often the watchdog restarts xray, and how often it says so.
use native.Mathlib.Nat.{pow-suc, zero-add}
use v2pi.Base.{
  ℕ, zero, suc, ◌+◌, ◌-◌, ◌*◌, ◌^◌, ◌≡◌, ◌≤◌, ◌<◌, refl, arith, true, false, Option, none, some,
  List, [], ◌∷◌, if◌then◌else◌, All, ap, subst, ◌⊎◌, Bool-cases, inl, inr,
}
use v2pi.Supervisor.{error}
use v2pi.Health.Liveness.{
  backoff, base_backoff, max_backoff, Watchdog, WatchEnv, WatchEvent, Watched, watchdog, idle,
}

pow_pos : (k : ℕ) → 1 ≤ 2 ^ k
pow_pos zero = omega arith
pow_pos (suc k) = rw pow-suc (omega (arith, pow_pos k))

-- The pause after a restart is at least one turn of the loop and at most ten minutes.
pub backoff_bounds :
    (attempts : ℕ) → (base_backoff ≤ backoff attempts) × (backoff attempts ≤ max_backoff)
unfolding backoff
backoff_bounds attempts = omega (arith, pow_pos (attempts - 1))

pub backoff_full : backoff 6 ≡ max_backoff
unfolding backoff
backoff_full = refl

-- A tick of the loop.
abbrev pub Tick : Type 0
Tick = ℕ × WatchEnv

-- The ticks one after the other: the watchdog at the end, its restarts and its events.
pub record Watch : Type 0 where
  pub dog : Watchdog
  pub restarts : ℕ
  pub events : List WatchEvent

abbrev pub file : Option WatchEvent → List WatchEvent → List WatchEvent
file none events = events
file (some e) events = e ∷ events

abbrev pub watch : List Tick → Watchdog → Watch
watch [] d = record { dog = d; restarts = 0; events = [] }
watch ((now, env) ∷ ticks) d =
    let w = watchdog env now d in
    let rest = watch ticks w.dog in
    record {
      dog = rest.dog;
      restarts = (if w.restarted then 1 else 0) + rest.restarts;
      events = file w.event rest.events;
    }

-- A restart happens only at a crash that is seen twice, not before its time, and sets the next one.
pub watchdog_restart :
    (env : WatchEnv) (now : ℕ) (d : Watchdog)
    → (watchdog env now d).restarted ≡ true
    → (env.mode ≡ error)
      × (env.mode_locked ≡ error)
      × (d.next_restart_at ≤ now)
      × ((watchdog env now d).dog.next_restart_at ≡ now + backoff (watchdog env now d).dog.attempts)
unfolding watchdog
watchdog_restart env now d h = ground arith

watchdog-idle :
    (env : WatchEnv) (now : ℕ) (d : Watchdog)
    → (watchdog env now d).restarted ≡ false
    → watchdog env now d ≡ idle d
unfolding watchdog
watchdog-idle env now d h = ground arith

-- If some tick restarts xray and none is later than `last`, the number of restarts is at most what
-- fits, at 20 s each, between the time from which one was allowed and `last`, both included.
pub watch_spacing :
    (last : ℕ) (ticks : List Tick) (d : Watchdog)
    → All (λ (t : Tick). t.0 ≤ last) ticks
    → 0 < (watch ticks d).restarts
    → d.next_restart_at + base_backoff * (watch ticks d).restarts ≤ last + base_backoff
watch_spacing last [] d h pos = absurd (omega arith)
watch_spacing last ((now, env) ∷ ticks) d (le, h) pos =
    elim (Bool-cases (watchdog env now d).restarted) [
      | inl yes_restart ↦
          let (_, _, due, next) = watchdog_restart env now d yes_restart in
          let pause = (backoff_bounds (watchdog env now d).dog.attempts).0 in
          rw yes_restart (elim (zero_or_pos (watch ticks (watchdog env now d).dog).restarts) [
            | inl z ↦ rw z (omega arith)
            | inr p ↦ omega (arith, watch_spacing last ticks (watchdog env now d).dog h p)
          ])
      | inr no_restart ↦
          let same : (watchdog env now d).dog ≡ d =
            ap (λ (w : Watched). w.dog) (watchdog-idle env now d no_restart) in
          let pos' =
            subst (λ b. 0 < (if b then 1 else 0) + (watch ticks (watchdog env now d).dog).restarts)
              no_restart pos in
          rw no_restart (
            rw (zero-add (watch ticks (watchdog env now d).dog).restarts) (
              subst
                (λ e.
                  e.next_restart_at + base_backoff * (watch ticks (watchdog env now d).dog).restarts
                  ≤ last + base_backoff)
                same (watch_spacing last ticks (watchdog env now d).dog h (omega arith))))
    ]
  where
    zero_or_pos : (n : ℕ) → (n ≡ 0) ⊎ (0 < n)
    zero_or_pos zero = inl refl
    zero_or_pos (suc n) = inr (omega arith)
