-- ===== src/Events/Retention.antt =====
-- nodes/store.py, `add_event`: the two bounds of the log.
use mathlib.Core.List.{Memᴰ}
use v2pi.Base.{
  ℕ, ◌+◌, ◌-◌, ◌≤◌, ◌<◌, ◌≡◌, refl, arith, String, Bool, true, not, leb, ltb, Option, none, some,
  List, [], ◌∷◌, ◌++◌, keep, length, mem-keep, mem-append_left, mem-append_right, Bool-cases, inl,
  inr,
}
use v2pi.Events.{Event, Log, newest, anchor, add_event, event_retention_sec, event_cap, clip}

-- The ids ascend strictly from above `lo` up to `hi`.
abbrev pub Ascends : ℕ → List Event → ℕ → Type 0
Ascends lo [] hi = lo ≤ hi
Ascends lo (e ∷ rows) hi = (lo < e.id) × Ascends e.id rows hi

-- A log as the table holds it: ids in order, none above the last that was given out, at most the cap.
pub record IsLog (log : Log) : Type 0 where
  pub ordered : Ascends 0 log.rows log.last_id
  pub capped : length log.rows ≤ event_cap

Ascends-length : (lo : ℕ) (rows : List Event) (hi : ℕ) → Ascends lo rows hi → lo + length rows ≤ hi
Ascends-length lo [] hi h = omega (arith, h)
Ascends-length lo (e ∷ rows) hi h = omega (arith, h.0, Ascends-length e.id rows hi h.1)

Ascends-lower :
    (lo lo' : ℕ) (rows : List Event) (hi : ℕ) → lo' ≤ lo → Ascends lo rows hi → Ascends lo' rows hi
Ascends-lower lo lo' [] hi le h = omega (arith, h, le)
Ascends-lower lo lo' (e ∷ rows) hi le h = (omega (arith, h.0, le), h.1)

Ascends-keep :
    (p : Event → Bool) (lo : ℕ) (rows : List Event) (hi : ℕ)
    → Ascends lo rows hi
    → Ascends lo (keep p rows) hi
unfolding keep
Ascends-keep p lo [] hi h = h
Ascends-keep p lo (e ∷ rows) hi h = elim (Bool-cases (p e)) [
  | inl q ↦ rw q (h.0, Ascends-keep p e.id rows hi h.1)
  | inr q ↦ rw q (
      Ascends-lower e.id lo (keep p rows) hi (omega (arith, h.0)) (Ascends-keep p e.id rows hi h.1))
]

Ascends-append :
    (lo : ℕ) (rows : List Event) (hi : ℕ) (row : Event)
    → row.id ≡ hi + 1
    → Ascends lo rows hi
    → Ascends lo (rows ++ row ∷ []) (hi + 1)
Ascends-append lo [] hi row i h = (omega (arith, h, i), omega (arith, i))
Ascends-append lo (e ∷ rows) hi row i h = (h.0, Ascends-append e.id rows hi row i h.1)

-- What the cap keeps starts above `id - cap`.
Ascends-cap :
    (lo : ℕ) (rows : List Event) (hi : ℕ)
    → Ascends lo rows hi
    → Ascends (hi - event_cap) (keep (λ e. not (leb (e.id + event_cap) hi)) rows) hi
unfolding keep
Ascends-cap lo [] hi h = omega arith
Ascends-cap lo (e ∷ rows) hi h = elim (Bool-cases (leb (e.id + event_cap) hi)) [
  | inl q ↦ rw q (Ascends-cap e.id rows hi h.1)
  | inr q ↦ rw q (ground arith, Ascends-keep _ e.id rows hi h.1)
]

-- A log whose ids ascend up to the last one given out, and that holds at most 5000 rows, stays such
-- a log whatever is written when.
pub add_event-IsLog :
    (ts : ℕ) (kind detail : String) (log : Log) → IsLog log → IsLog (add_event ts kind detail log)
unfolding add_event
add_event-IsLog ts kind detail log h =
    let id = log.last_id + 1 in
    let row : Event = record { id = id; ts = ts; kind = clip 64 kind; detail = clip 512 detail } in
    let old = Ascends-append 0 log.rows log.last_id row refl h.ordered in
    let recent : Event → Bool =
      λ e. not (ltb e.ts (anchor (newest log.rows) ts - event_retention_sec)) in
    let kept = Ascends-keep recent 0 (log.rows ++ row ∷ []) id old in
    let rows = keep recent (log.rows ++ row ∷ []) in
    let fits = Ascends-cap 0 rows id kept in
    record {
      ordered = Ascends-keep _ 0 rows id kept;
      capped = omega (arith, Ascends-length (id - event_cap) _ id fits);
    }

-- A row that is not older than 30 days before the newest row, and is among the last 4999, survives a
-- write of any time, one from the future included.
pub add_event-survives :
    (ts : ℕ) (kind detail : String) (log : Log) (e : Event) (t : ℕ)
    → Memᴰ e log.rows
    → newest log.rows ≡ some t
    → t ≤ e.ts + event_retention_sec
    → log.last_id + 1 < e.id + event_cap
    → Memᴰ e (add_event ts kind detail log).rows
unfolding add_event anchor
add_event-survives ts kind detail log e t found top recent late =
    mem-keep _ (mem-keep _ (mem-append_left _ found) (rw top (ground arith))) (ground arith)

-- The event that is written is in the log afterwards, its texts cut to 64 and 512 characters.
pub add_event-records :
    (ts : ℕ) (kind detail : String) (log : Log)
    → Memᴰ
        (record { id = log.last_id + 1; ts = ts; kind = clip 64 kind; detail = clip 512 detail })
        (add_event ts kind detail log).rows
unfolding add_event anchor
add_event-records ts kind detail log =
    mem-keep _ (mem-keep _ (mem-append_right log.rows (Memᴰ.head refl)) (fresh (newest log.rows)))
      (ground arith)
  where
    fresh : (o : Option ℕ) → not (ltb ts (anchor o ts - event_retention_sec)) ≡ true
    fresh none = ground arith
    fresh (some t) = ground arith
