-- ===== src/Devices.antt =====
-- devices.py: the bytes of the pinned devices, read once a minute from the counters of nft.
pub mod Exact
use v2pi.Base.{
  ℕ, ◌+◌, ◌-◌, ◌/◌, ◌==◌, Bool, true, false, not, ◌&&◌, ◌||◌, ltb, String, str_eq, Option, none,
  some, List, [], ◌∷◌, if◌then◌else◌, get_or,
}
use v2pi.Stats.{Counters}

-- The counters by name; no name stands twice.
abbrev pub Counted : Type 0
Counted = List (String × ℕ)

-- `d.get(name)`
unfoldable pub find : String → Counted → Option ℕ
find name [] = none
find name ((key, total) ∷ rest) =
    let later = find name rest in if str_eq key name then some total else later

-- What has been added to one counter since the reading before.
unfoldable pub moved_since : Option ℕ → ℕ → ℕ
moved_since none total = total
moved_since (some before) total = if ltb total before then total else total - before

-- `deltas`
unfoldable pub deltas : Counted → Counted → Counted
unfolding find moved_since
deltas previous [] = []
deltas previous ((name, total) ∷ rest) =
    let moved = moved_since (find name previous) total in
    let others = deltas previous rest in if moved == 0 then others else (name, moved) ∷ others

-- A row that is booked: the address, the minute and the bytes.
pub record Booked : Type 0 where
  pub ip : String
  pub ts_min : ℕ
  pub bytes : Counters

-- The loop over the addresses of the reservations; `up_name` and `down_name` are `counter_names`.
book : (String → String) → (String → String) → ℕ → Counted → List String → List Booked
unfolding find
book up_name down_name ts_min moved [] = []
book up_name down_name ts_min moved (ip ∷ ips) =
    let up = get_or (find (up_name ip) moved) 0 in
    let down = get_or (find (down_name ip) moved) 0 in
    let rest = book up_name down_name ts_min moved ips in
    if not (up == 0) || not (down == 0)
    then record { ip = ip; ts_min = ts_min; bytes = record { up = up; down = down } } ∷ rest
    else rest

-- `sample_once`: the baseline after, and the rows for the store. `reading` is none where the read of the
-- counters failed.
unfoldable pub sample_once :
    (String → String)
    → (String → String)
    → Option Counted
    → ℕ
    → List String
    → Counted
    → Counted × List Booked
unfolding deltas book
sample_once up_name down_name none now ips previous = (previous, [])
sample_once up_name down_name (some current) now ips previous =
    (current, book up_name down_name (now / 60) (deltas previous current) ips)
