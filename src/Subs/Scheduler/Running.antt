-- ===== src/Subs/Scheduler/Running.antt =====
-- subs/scheduler.py: a refresh that runs past the deadline of its batch.
use mathlib.Core.List.{Memᴰ}
use v2pi.Base.{
  ℕ, ◌≡◌, ◌≢◌, ◌⊎◌, refl, ap, ◌∙◌, arith, Bool, true, false, not, ◌||◌, ◌==◌, ==_iff, List, [], ◌∷◌,
  map, keep, any_of, any_of-append, any_of-keep, Bool-cases, inl, inr, if◌then◌else◌,
}
use v2pi.Subs.Scheduler.{
  Sub, Scheduler, Future, running, Futures, TickEnv, in_flight, collect, collect_all, reap_inflight,
  submit_all, planned, submit_batch, run_once,
}
use v2pi.Subs.Scheduler.Flight.{collect-inflight, planned-inflight, planned-idle}

land-other :
    (i j : ℕ) (ids : List ℕ)
    → (j == i) ≡ false
    → any_of (λ k. k == i) (keep (λ k. not (k == j)) ids) ≡ any_of (λ k. k == i) ids
land-other i j ids ne =
    any_of-keep (λ k. k == i) (λ k. not (k == j)) ids (λ k e. ground (arith, ne))

collect-keeps :
    (i percent j : ℕ) (f : Future) (now : ℕ) (s : Scheduler)
    → ((j == i) ≡ false) ⊎ (f ≡ running)
    → in_flight i (collect percent j f now s) ≡ in_flight i s
unfolding collect
collect-keeps i percent j f now s (inr e) = rw (e, collect) refl
collect-keeps i percent j f now s (inl ne) = elim (collect-inflight percent j f now s) [
  | inl (e, same) ↦ ap (in_flight i) same
  | inr left ↦ ap (any_of (λ k. k == i)) left ∙ land-other i j s.inflight ne
]

-- Collecting the futures of `ids` leaves an id in flight whose own future, if it is one, runs on.
collect_all-keeps :
    (f : Futures) (i : ℕ) (ids : List ℕ) (now : ℕ) (s : Scheduler)
    → (any_of (λ j. j == i) ids ≡ false) ⊎ (f.holds i ≡ running)
    → in_flight i (collect_all f ids now s) ≡ in_flight i s
unfolding collect_all any_of
collect_all-keeps f i [] now s h = refl
collect_all-keeps f i (j ∷ ids) now s h =
    collect_all-keeps f i ids now (collect (f.percent j) j (f.holds j) now s) (later h)
    ∙ collect-keeps i (f.percent j) j (f.holds j) now s (here h (Bool-cases (j == i)))
  where
    later :
        ((j == i || any_of (λ k. k == i) ids) ≡ false) ⊎ (f.holds i ≡ running)
        → (any_of (λ k. k == i) ids ≡ false) ⊎ (f.holds i ≡ running)
    later (inl e) = inl (ground (arith, e))
    later (inr r) = inr r

    here :
        ((j == i || any_of (λ k. k == i) ids) ≡ false) ⊎ (f.holds i ≡ running)
        → ((j == i) ≡ true) ⊎ ((j == i) ≡ false)
        → ((j == i) ≡ false) ⊎ (f.holds j ≡ running)
    here (inl e) q = inl (ground (arith, e))
    here (inr r) (inl q) = inr (ap f.holds ((==_iff j i).0 q) ∙ r)
    here (inr r) (inr q) = inl q

submit_all-keeps :
    (i : ℕ) (subs : List Sub) (s : Scheduler)
    → in_flight i s ≡ true
    → in_flight i (submit_all subs s) ≡ true
unfolding submit_all
submit_all-keeps i [] s h = h
submit_all-keeps i (sub ∷ subs) s h =
    submit_all-keeps i subs _ (elim (Bool-cases (in_flight sub.id s)) [
      | inl e ↦ rw e h
      | inr e ↦ rw e (any_of-append (λ k. k == i) s.inflight (sub.id ∷ []) ∙ rw h (ground arith))
    ])

not_planned :
    (i : ℕ) (due : List Sub)
    → ((sub : Sub) → Memᴰ sub due → sub.id ≢ i)
    → any_of (λ k. k == i) (map (λ d. d.id) due) ≡ false
unfolding any_of
not_planned i [] h = refl
not_planned i (d ∷ due) h =
    ground (arith, not_planned i due (λ sub m. h sub (Memᴰ.tail m)), h d (Memᴰ.head refl))

submit_batch-keeps :
    (env : TickEnv) (i : ℕ) (p : List Sub × Scheduler)
    → ((sub : Sub) → Memᴰ sub p.0 → sub.id ≢ i)
    → in_flight i p.1 ≡ true
    → in_flight i (submit_batch env p) ≡ true
unfolding submit_batch
submit_batch-keeps env i ([], s) ne h = h
submit_batch-keeps env i (sub ∷ due, s) ne h =
    collect_all-keeps env.batch i (map (λ d. d.id) (sub ∷ due)) env.now _
      (inl (not_planned i (sub ∷ due) ne))
    ∙ submit_all-keeps i (sub ∷ due) (record s { pool = true }) h

-- A tracked refresh whose future has not ended at a tick stays tracked through the tick, and no
-- second one of that subscription is submitted.
pub run_once-keeps_running :
    (env : TickEnv) (i : ℕ) (s : Scheduler)
    → in_flight i s ≡ true
    → env.old.holds i ≡ running
    → (in_flight i (run_once env s) ≡ true)
      × ((sub : Sub) → Memᴰ sub (planned env s).0 → sub.id ≢ i)
unfolding run_once reap_inflight
run_once-keeps_running env i s h r = (gate s.closing refl, fresh)
  where
    reaped : in_flight i (reap_inflight env.old env.now s) ≡ true
    reaped = collect_all-keeps env.old i s.inflight env.now s (inr r) ∙ h

    fresh : (sub : Sub) → Memᴰ sub (planned env s).0 → sub.id ≢ i
    fresh sub m e =
        let (_, _, _, idle) = planned-idle env s sub m in
        cc (idle, reaped, ap (λ k. in_flight k (reap_inflight env.old env.now s)) e)

    gate :
        (b : Bool)
        → s.closing ≡ b
        → in_flight i (if b then s else submit_batch env (planned env s)) ≡ true
    gate true e = h
    gate false e =
        submit_batch-keeps env i (planned env s) fresh
          (ap (any_of (λ k. k == i)) (planned-inflight env s) ∙ reaped)
