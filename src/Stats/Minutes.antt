-- ===== src/Stats/Minutes.antt =====
-- nodes/store.py, the table traffic_minutes: the bytes of each minute, for 90 days.
use v2pi.Base.{
  ℕ, ◌+◌, ◌-◌, ◌*◌, ◌/◌, ◌==◌, ◌≤◌, ◌≡◌, refl, arith, ap, ◌∙◌, Bool, true, ◌&&◌, leb, ltb, min, max,
  Option, none, some, List, [], ◌∷◌, if◌then◌else◌, keep, ==_iff, Bool-cases, inl, inr,
}
use v2pi.Base.Int.{ℤ, pos_part, neg_part}
use v2pi.Stats.{Counters, add_counters}

-- A row; `minute` is the primary key.
pub record Row : Type 0 where
  pub minute : ℕ
  pub bytes : Counters

-- `_TRAFFIC_RETENTION_MIN`
abbrev pub retention_min : ℕ
retention_min = 90 * 24 * 60

-- `MAX(ts_min)`
unfoldable pub newest : List Row → Option ℕ
newest [] = none
newest (r ∷ rows) = elim (newest rows) [ none ↦ some r.minute | some m ↦ some (max r.minute m) ]

-- `INSERT ... ON CONFLICT(ts_min) DO UPDATE`, which adds.
upsert : ℕ → Counters → List Row → List Row
upsert ts c [] = record { minute = ts; bytes = c } ∷ []
upsert ts c (r ∷ rows) =
    let rest = upsert ts c rows in
    if r.minute == ts then record r { bytes = add_counters r.bytes c } ∷ rows else r ∷ rest

prune_anchor : ℕ → Option ℕ → ℕ
prune_anchor ts none = ts
prune_anchor ts (some m) = min ts m

-- `add_traffic_minute`: the floor of the retention is taken from the newest row that was there.
unfoldable pub add_traffic_minute : ℕ → Counters → List Row → List Row
unfolding upsert newest prune_anchor
add_traffic_minute ts c rows =
    keep (λ r. leb (prune_anchor ts (newest rows)) (r.minute + retention_min)) (upsert ts c rows)

abbrev none_yet : Counters
none_yet = record { up = 0; down = 0 }

sum : List Row → Counters
sum [] = none_yet
sum (r ∷ rows) = add_counters r.bytes (sum rows)

unfoldable pub within : ℕ → Option ℕ → Row → Bool
within since none r = leb since r.minute
within since (some until) r = leb since r.minute && ltb r.minute until

-- `traffic_total`
unfoldable pub traffic_total : ℕ → Option ℕ → List Row → Counters
unfolding within sum
traffic_total since until rows = sum (keep (within since until) rows)

-- The day on the gateway's own clock.
day_of : ℤ → Row → ℕ
day_of tz r = (r.minute * 60 + pos_part tz - neg_part tz) / 86400

-- One row of `traffic_days`.
pub record Day : Type 0 where
  pub day : ℕ
  pub bytes : Counters

-- `GROUP BY day ORDER BY day`, one row at a time.
add_day : ℕ → Counters → List Day → List Day
add_day d c [] = record { day = d; bytes = c } ∷ []
add_day d c (e ∷ days) =
    let rest = add_day d c days in
    if e.day == d
    then record e { bytes = add_counters e.bytes c } ∷ days
    else if ltb d e.day
    then record { day = d; bytes = c } ∷ e ∷ days
    else e ∷ rest

group : ℤ → List Row → List Day
group tz [] = []
group tz (r ∷ rows) = add_day (day_of tz r) r.bytes (group tz rows)

-- `traffic_days`
unfoldable pub traffic_days : ℕ → ℤ → List Row → List Day
unfolding group within add_day day_of
traffic_days since tz rows = group tz (keep (within since none) rows)

abbrev pub sum_days : List Day → Counters
sum_days [] = none_yet
sum_days (e ∷ days) = add_counters e.bytes (sum_days days)

-- What a query of the minutes from `since` on counts, row by row.
sum-upsert :
    (p : Row → Bool) (ts : ℕ) (c : Counters) (rows : List Row)
    → ((r q : Row) → r.minute ≡ q.minute → p r ≡ p q)
    → sum (keep p (upsert ts c rows)) ≡ (
        if p (record { minute = ts; bytes = c })
        then add_counters c (sum (keep p rows))
        else sum (keep p rows))
unfolding sum keep upsert
sum-upsert p ts c [] same = ground arith
sum-upsert p ts c (r ∷ rows) same = elim (Bool-cases (r.minute == ts)) [
  | inl e ↦
      let q = same r (record { minute = ts; bytes = c }) ((==_iff r.minute ts).0 e) in
      let q' = same r (record r { bytes = add_counters r.bytes c }) refl in
      rw e (ground (arith, q, q'))
  | inr e ↦ rw e (ground (arith, sum-upsert p ts c rows same))
]

-- The floor lies below what is asked for, so pruning changes nothing there.
keep-keep :
    (p q : Row → Bool) (rows : List Row)
    → ((r : Row) → p r ≡ true → q r ≡ true)
    → keep p (keep q rows) ≡ keep p rows
unfolding keep
keep-keep p q [] h = refl
keep-keep p q (r ∷ rows) h = elim (Bool-cases (q r)) [
  | inl e ↦ rw e (ap (λ t. if p r then r ∷ t else t) (keep-keep p q rows h))
  | inr e ↦ rw e (keep-keep p q rows h ∙ ground (arith, h r))
]

-- A minute that is filed adds its bytes to every total that asks for no more than the 90 days before
-- the newest row that was there, if the minute is asked for, and changes no such total otherwise: a
-- sample from the future deletes nothing.
pub add_traffic_minute-total :
    (ts since m : ℕ) (until : Option ℕ) (c : Counters) (rows : List Row)
    → newest rows ≡ some m
    → m ≤ since + retention_min
    → traffic_total since until (add_traffic_minute ts c rows) ≡ (
        if within since until (record { minute = ts; bytes = c })
        then add_counters c (traffic_total since until rows)
        else traffic_total since until rows)
unfolding traffic_total add_traffic_minute prune_anchor
add_traffic_minute-total ts since m until c rows e h =
    ap sum (keep-keep (within since until) _ (upsert ts c rows) (asked until))
    ∙ sum-upsert (within since until) ts c rows (by_minute until)
  where
    asked :
        (until : Option ℕ) (r : Row)
        → within since until r ≡ true
        → leb (prune_anchor ts (newest rows)) (r.minute + retention_min) ≡ true
    asked none r w = rw (e, prune_anchor) (ground arith)
    asked (some u) r w = rw (e, prune_anchor) (ground arith)

    by_minute :
        (until : Option ℕ) (r q : Row)
        → r.minute ≡ q.minute
        → within since until r ≡ within since until q
    by_minute none r q e = rw e
    by_minute (some u) r q e = rw e

sum-add_day :
    (d : ℕ) (c : Counters) (days : List Day)
    → sum_days (add_day d c days) ≡ add_counters c (sum_days days)
unfolding add_day
sum-add_day d c [] = refl
sum-add_day d c (e ∷ days) = ground (arith, sum-add_day d c days)

-- The days add up to the total, wherever the gateway's clock cuts them.
pub traffic_days-total :
    (since : ℕ) (tz : ℤ) (rows : List Row)
    → sum_days (traffic_days since tz rows) ≡ traffic_total since none rows
unfolding traffic_days traffic_total
traffic_days-total since tz rows = grouped (keep (within since none) rows)
  where
    grouped : (rows : List Row) → sum_days (group tz rows) ≡ sum rows
    grouped [] = refl
    grouped (r ∷ rows) =
        sum-add_day (day_of tz r) r.bytes (group tz rows) ∙ ap (add_counters r.bytes) (grouped rows)
