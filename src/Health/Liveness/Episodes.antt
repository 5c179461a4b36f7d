-- ===== src/Health/Liveness/Episodes.antt =====
-- health/liveness.py: the events that the watchdog files while xray keeps crashing.
use v2pi.Base.{
  ℕ, suc, ◌+◌, ◌≡◌, ◌≢◌, ◌≤◌, refl, arith, false, ◌==◌, Option, none, some, List, [], ◌∷◌,
  if◌then◌else◌, length, ap,
}
use v2pi.Supervisor.{error}
use v2pi.Health.Liveness.{
  backoff, Watchdog, WatchEnv, WatchEvent, auto_restarted, watchdog, stable_sec,
}
use v2pi.Health.Liveness.Pacing.{Tick, watch, file}

-- The events that an episode may still file.
abbrev budget : Watchdog → ℕ
budget d = (if d.attempts == 0 then 1 else 0) + (if d.reported then 0 else 1)

abbrev event_count : Option WatchEvent → ℕ
event_count none = 0
event_count (some e) = 1

unready_tick :
    (env : WatchEnv) (now : ℕ) (d : Watchdog)
    → env.ready ≡ false
    → d.last_ready_at ≡ 0
    → ((watchdog env now d).dog.last_ready_at ≡ 0)
      × (event_count (watchdog env now d).event + budget (watchdog env now d).dog ≤ budget d)
unfolding watchdog
unready_tick env now d r z = ground arith

-- No restart of these ticks brings xray up.
abbrev pub NeverReady : List Tick → Type 0
NeverReady [] = Unit
NeverReady ((now, env) ∷ ticks) = (env.ready ≡ false) × NeverReady ticks

length-file :
    (e : Option WatchEvent) (events : List WatchEvent)
    → length (file e events) ≡ event_count e + length events
length-file none events = omega arith
length-file (some e) events = omega arith

length-events :
    (ticks : List Tick) (d : Watchdog)
    → NeverReady ticks
    → d.last_ready_at ≡ 0
    → length (watch ticks d).events ≤ budget d
length-events [] d r z = omega arith
length-events ((now, env) ∷ ticks) d (r, rs) z =
    let (z', less) = unready_tick env now d r z in
    omega (
      arith,
      less,
      length-file (watchdog env now d).event (watch ticks (watchdog env now d).dog).events,
      length-events ticks (watchdog env now d).dog rs z',
    )

-- While xray has not come up once since the loop was made, the watchdog files at most two events,
-- however long that lasts.
pub watch_quiet :
    (ticks : List Tick) (d : Watchdog)
    → NeverReady ticks
    → d.last_ready_at ≡ 0
    → length (watch ticks d).events ≤ 2
watch_quiet ticks d r z = ground (arith, length-events ticks d r z)

-- Ticks that each find xray crashed and cannot bring it up, the first not before `t` and each at
-- least 20 s after the one before.
abbrev pub CrashTicks : ℕ → List Tick → Type 0
CrashTicks t [] = Unit
CrashTicks t ((now, env) ∷ ticks) =
    (t ≤ now)
    × (env.stopping ≡ false)
    × (env.stopping_locked ≡ false)
    × (env.mode ≡ error)
    × (env.mode_locked ≡ error)
    × (env.ready ≡ false)
    × CrashTicks (now + 20) ticks

crash_tick :
    (env : WatchEnv) (now : ℕ) (d : Watchdog)
    → d.last_ready_at ≢ 0
    → d.last_ready_at + stable_sec ≤ now
    → d.next_restart_at ≤ now
    → env.stopping ≡ false
    → env.stopping_locked ≡ false
    → env.mode ≡ error
    → env.mode_locked ≡ error
    → env.ready ≡ false
    → ((watchdog env now d).event ≡ some auto_restarted)
      × ((watchdog env now d).dog.attempts ≡ 1)
      × ((watchdog env now d).dog.last_ready_at ≡ d.last_ready_at)
      × ((watchdog env now d).dog.next_restart_at ≡ now + 20)
unfolding watchdog backoff
crash_tick env now d a b c e f g h i = ground arith

-- Where xray was seen up once, at least 300 s before the first tick, and every tick, none less than
-- 20 s after the one before, finds it crashed and cannot bring it up, each tick files an event: the
-- escalation starts anew at each.
pub watch_flood :
    (t : ℕ) (ticks : List Tick) (d : Watchdog)
    → d.last_ready_at ≢ 0
    → d.last_ready_at + stable_sec ≤ t
    → d.next_restart_at ≤ t
    → CrashTicks t ticks
    → length (watch ticks d).events ≡ length ticks
watch_flood t [] d up old due c = refl
watch_flood t ((now, env) ∷ ticks) d up old due (le, s, sl, m, ml, r, c) =
    let (e, _, same, next) = crash_tick env now d up (omega arith) (omega arith) s sl m ml r in
    rw e (
      ap suc (
        watch_flood (now + 20) ticks (watchdog env now d).dog (λ q. up (omega arith)) (omega arith)
          (omega arith) c))
