-- ===== src/Subs/Scheduler/Flight.antt =====
-- subs/scheduler.py: the refreshes that are in flight through the steps of a tick.
use mathlib.Core.List.{Memᴰ}
use v2pi.Base.{
  ℕ, ◌≡◌, ◌≢◌, ◌⊎◌, refl, sym, ap, ◌∙◌, arith, Bool, true, false, not, ◌||◌, ◌==◌, Option, none,
  some, List, [], ◌∷◌, keep, any_of, inl, inr, if◌then◌else◌,
}
use v2pi.Base.Assoc.{lookup}
use v2pi.Subs.Scheduler.{
  Sub, Stamp, age_since, Scheduler, Future, running, cancelled, raised, finished, TickEnv,
  forget_deleted, in_flight, due_sub, due_loop, due_subs, land, score, collect, reap_inflight,
  planned, by_retry, by_interval, first_sight,
}

-- No id stands twice.
abbrev pub IsSingle : List ℕ → Type 0
IsSingle [] = Unit
IsSingle (i ∷ ids) = (any_of (λ j. j == i) ids ≡ false) × IsSingle ids

score-inflight :
    (percent i : ℕ) (ok : Bool) (now : ℕ) (s : Scheduler)
    → (score percent i ok now s).inflight ≡ s.inflight
unfolding score
score-inflight percent i true now s = refl
score-inflight percent i false now s = refl

-- A future that runs on stays where it is; each other one leaves.
pub collect-inflight :
    (percent i : ℕ) (f : Future) (now : ℕ) (s : Scheduler)
    → (f ≡ running) × (collect percent i f now s ≡ s)
      ⊎ ((collect percent i f now s).inflight ≡ keep (λ j. not (j == i)) s.inflight)
unfolding collect land
collect-inflight percent i running now s = inl (refl, refl)
collect-inflight percent i cancelled now s = inr refl
collect-inflight percent i raised now s = inr (score-inflight percent i false now (land i s))
collect-inflight percent i (finished ok) now s = inr (score-inflight percent i ok now (land i s))

first_sight-inflight :
    (now : ℕ) (sub : Sub) (o : Option ℕ) (s : Scheduler)
    → (first_sight now sub o s).1.inflight ≡ s.inflight
unfolding first_sight
first_sight-inflight now sub none s = refl
first_sight-inflight now sub (some age) s = ground arith

by_interval-inflight :
    (now wall : ℕ) (sub : Sub) (o : Option Stamp) (s : Scheduler)
    → (by_interval now wall sub o s).1.inflight ≡ s.inflight
unfolding by_interval
by_interval-inflight now wall sub none s =
    first_sight-inflight now sub (age_since wall sub.last_fetched) s
by_interval-inflight now wall sub (some last) s = refl

by_retry-inflight :
    (now wall : ℕ) (sub : Sub) (o : Option ℕ) (s : Scheduler)
    → (by_retry now wall sub o s).1.inflight ≡ s.inflight
unfolding by_retry
by_retry-inflight now wall sub none s =
    by_interval-inflight now wall sub (lookup sub.id s.last_run) s
by_retry-inflight now wall sub (some at) s = refl

either :
    (b : Bool) (x y : Bool × Scheduler) (ids : List ℕ)
    → x.1.inflight ≡ ids
    → y.1.inflight ≡ ids
    → (if b then x else y).1.inflight ≡ ids
either true x y ids e f = e
either false x y ids e f = f

both_fail :
    (a b : Bool) (s : Scheduler) (r : Bool × Scheduler)
    → (if a then (false, s) else if b then (false, s) else r).0 ≡ true
    → (a ≡ false) × (b ≡ false)
both_fail a b s r h = ground arith

due_sub-inflight :
    (now wall : ℕ) (sub : Sub) (s : Scheduler) → (due_sub now wall sub s).1.inflight ≡ s.inflight
unfolding due_sub
due_sub-inflight now wall sub s = either (sub.interval_sec == 0 || not sub.enabled) _ _ _ refl (
    either (in_flight sub.id s) _ _ _ refl
      (by_retry-inflight now wall sub (lookup sub.id s.retry_at) s))

-- What is due is enabled, has an interval, and has no refresh that runs.
due_sub-idle :
    (now wall : ℕ) (sub : Sub) (s : Scheduler)
    → (due_sub now wall sub s).0 ≡ true
    → (sub.interval_sec ≢ 0) × (sub.enabled ≡ true) × (in_flight sub.id s ≡ false)
unfolding due_sub
due_sub-idle now wall sub s h =
    let (a, b) = both_fail (sub.interval_sec == 0 || not sub.enabled) (in_flight sub.id s) s _ h in
    (ground (arith, a), ground (arith, a), b)

due_loop-inflight :
    (now wall : ℕ) (subs : List Sub) (s : Scheduler)
    → (due_loop now wall subs s).1.inflight ≡ s.inflight
unfolding due_loop
due_loop-inflight now wall [] s = refl
due_loop-inflight now wall (sub ∷ subs) s =
    due_loop-inflight now wall subs (due_sub now wall sub s).1 ∙ due_sub-inflight now wall sub s

pub planned-inflight :
    (env : TickEnv) (s : Scheduler)
    → (planned env s).1.inflight ≡ (reap_inflight env.old env.now s).inflight
unfolding planned due_subs forget_deleted
planned-inflight env s =
    due_loop-inflight env.now env.wall env.subs
      (forget_deleted env.subs (reap_inflight env.old env.now s))

due_loop-mem :
    (now wall : ℕ) (subs : List Sub) (s : Scheduler) (sub : Sub)
    → Memᴰ sub (due_loop now wall subs s).0
    → Memᴰ sub subs × (sub.interval_sec ≢ 0) × (sub.enabled ≡ true) × (in_flight sub.id s ≡ false)
unfolding due_loop
due_loop-mem now wall [] s sub m = elim m [ ]
due_loop-mem now wall (x ∷ subs) s sub m =
    elim (split (due_sub now wall x s).0 (due_loop now wall subs (due_sub now wall x s).1).0 m) [
      | inl (due, same) ↦
          let (nz, on, idle) = due_sub-idle now wall x s due in
          (
            Memᴰ.head same,
            λ e. nz (ap (λ d. d.interval_sec) (sym same) ∙ e),
            ap (λ d. d.enabled) same ∙ on,
            ap (λ d. in_flight d.id s) same ∙ idle,
          )
      | inr later ↦
          let (found, nz, on, idle) =
            due_loop-mem now wall subs (due_sub now wall x s).1 sub later in
          (
            Memᴰ.tail found,
            nz,
            on,
            ap (any_of (λ j. j == sub.id)) (sym (due_sub-inflight now wall x s)) ∙ idle,
          )
    ]
  where
    split :
        (b : Bool) (rest : List Sub)
        → Memᴰ sub (if b then x ∷ rest else rest)
        → ((b ≡ true) × (sub ≡ x)) ⊎ Memᴰ sub rest
    split true rest (Memᴰ.head e) = inl (refl, e)
    split true rest (Memᴰ.tail r) = inr r
    split false rest r = inr r

-- What a tick submits are rows of the table that are enabled, have an interval, and of which no
-- refresh runs that an earlier tick has started.
pub planned-idle :
    (env : TickEnv) (s : Scheduler) (sub : Sub)
    → Memᴰ sub (planned env s).0
    → Memᴰ sub env.subs
      × (sub.interval_sec ≢ 0)
      × (sub.enabled ≡ true)
      × (in_flight sub.id (reap_inflight env.old env.now s) ≡ false)
unfolding planned due_subs forget_deleted
planned-idle env s sub m =
    due_loop-mem env.now env.wall env.subs
      (forget_deleted env.subs (reap_inflight env.old env.now s)) sub m
