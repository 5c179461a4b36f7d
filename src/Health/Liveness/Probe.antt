-- ===== src/Health/Liveness/Probe.antt =====
-- health/liveness.py: what the check of the active node writes, and the pacing of a revocation.
use v2pi.Base.{
  ℕ, ◌+◌, ◌≡◌, ◌≢◌, ◌≤◌, ◌⊎◌, refl, arith, Bool, true, false, Option, none, some, List, [], ◌∷◌,
  inl, inr, Bool-cases, if◌then◌else◌,
}
use v2pi.Health.Failover.{Store, Preflight, could_not_run, answered}
use v2pi.Health.Liveness.{
  ProbeEnv, note_probe, is_active, Revocation, ReconcileEnv, reconcile_tick, no_episode, backoff,
}

-- A result is dropped whole where the loop is stopping, or the tunnel was moved during the probe.
pub note_probe-moved :
    (env : ProbeEnv) (aid : ℕ) (p : Preflight) (st : Store)
    → (env.stopping_then ≡ true) ⊎ (is_active aid st ≡ false)
    → note_probe env aid (p, st) ≡ st
unfolding note_probe
note_probe-moved env aid could_not_run st h = refl
note_probe-moved env aid (answered ok ms e e6) st (inl stop) = rw stop
note_probe-moved env aid (answered ok ms e e6) st (inr moved) =
    elim (Bool-cases env.stopping_then) [ inl stop ↦ rw stop | inr on ↦ rw (on, moved) ]

-- A tick hands the revocation on only while its marker is set and its time has come; it files an
-- event only once; an unreadable store leaves the pacing alone, and an absent marker resets it; and
-- an attempt that did not finish is followed by its pause.
pub reconcile_tick_lem :
    (env : ReconcileEnv) (now : ℕ) (r : Revocation)
    → ((reconcile_tick env now r).attempted ≡ true → (env.pending ≡ some true) × (r.next_at ≤ now))
      × ((reconcile_tick env now r).filed ≡ true
          → (r.reported ≡ false)
            × ((env.done ≡ true) ⊎ ((reconcile_tick env now r).pacing.reported ≡ true)))
      × (env.pending ≡ none → (reconcile_tick env now r).pacing ≡ r)
      × (env.stopping ≡ false
          → env.pending ≡ some false
          → (reconcile_tick env now r).pacing ≡ no_episode)
      × ((reconcile_tick env now r).attempted ≡ true
          → env.done ≡ false
          → (reconcile_tick env now r).pacing.next_at ≡ now + backoff (r.attempts + 1))
unfolding reconcile_tick
reconcile_tick_lem env now r =
    (ground arith, ground arith, ground arith, ground arith, ground arith)

-- The events that a run of ticks files.
abbrev pub files : List (ℕ × ReconcileEnv) → Revocation → ℕ
files [] r = 0
files ((now, env) ∷ ticks) r =
    let t = reconcile_tick env now r in (if t.filed then 1 else 0) + files ticks t.pacing

-- No tick finds the marker gone, and no attempt finishes.
abbrev pub StaysOpen : List (ℕ × ReconcileEnv) → Type 0
StaysOpen [] = Unit
StaysOpen ((now, env) ∷ ticks) = (env.pending ≢ some false) × (env.done ≡ false) × StaysOpen ticks

open_tick :
    (env : ReconcileEnv) (now : ℕ) (r : Revocation)
    → env.pending ≢ some false
    → env.done ≡ false
    → (if (reconcile_tick env now r).filed then 1 else 0)
        + (if (reconcile_tick env now r).pacing.reported then 0 else 1)
      ≤ (if r.reported then 0 else 1)
unfolding reconcile_tick
open_tick env now r p d = at_pending env.pending refl
  where
    at_pending :
        (o : Option Bool)
        → env.pending ≡ o
        → (if (reconcile_tick env now r).filed then 1 else 0)
            + (if (reconcile_tick env now r).pacing.reported then 0 else 1)
          ≤ (if r.reported then 0 else 1)
    at_pending none e = ground arith
    at_pending (some false) e = absurd (p e)
    at_pending (some true) e = ground arith

-- While no tick finds the marker of a revocation gone, and no attempt finishes, the ticks file one
-- event at most, and none if one was filed before.
pub files-once :
    (ticks : List (ℕ × ReconcileEnv)) (r : Revocation)
    → StaysOpen ticks
    → files ticks r ≤ (if r.reported then 0 else 1)
files-once [] r h = omega arith
files-once ((now, env) ∷ ticks) r (p, d, h) =
    omega (arith, open_tick env now r p d, files-once ticks (reconcile_tick env now r).pacing h)

-- Once a tick has found the marker absent, the next revocation is handed on by the first tick that
-- finds its marker, at whatever time, unless the loop is stopping.
pub reconcile_tick-fresh :
    (absent found : ReconcileEnv) (now now' : ℕ) (r : Revocation)
    → absent.stopping ≡ false
    → absent.pending ≡ some false
    → found.stopping ≡ false
    → found.stopping_locked ≡ false
    → found.pending ≡ some true
    → (reconcile_tick found now' (reconcile_tick absent now r).pacing).attempted ≡ true
unfolding reconcile_tick
reconcile_tick-fresh absent found now now' r a b c d e = ground arith
