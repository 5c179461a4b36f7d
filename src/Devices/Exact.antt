-- ===== src/Devices/Exact.antt =====
-- devices.py: no byte of a counter is booked twice, or lost, whichever readings fail.
use v2pi.Base.{
  ℕ, ◌+◌, ◌≡◌, ◌≤◌, refl, sym, ap, ◌∙◌, arith, String, str_eq, eq_iff, Option, none, some, [], ◌∷◌,
  get_or, Bool-cases, inl, inr,
}
use v2pi.Devices.{Counted, find, moved_since, deltas}

-- The name stands in no entry.
abbrev Missing : String → Counted → Type 0
Missing name d = find name d ≡ none

-- No name stands twice.
abbrev pub IsDict : Counted → Type 0
IsDict [] = Unit
IsDict ((name, total) ∷ rest) = Missing name rest × IsDict rest

find-deltas-Missing :
    (name : String) (previous d : Counted) → Missing name d → find name (deltas previous d) ≡ none
unfolding find deltas
find-deltas-Missing name previous [] h = refl
find-deltas-Missing name previous ((key, total) ∷ rest) h =
    ground (arith, find-deltas-Missing name previous rest)

-- What is booked for a counter that is there is what it has gained.
pub find-deltas :
    (name : String) (previous d : Counted) (total : ℕ)
    → IsDict d
    → find name d ≡ some total
    → get_or (find name (deltas previous d)) 0 ≡ moved_since (find name previous) total
unfolding find deltas
find-deltas name previous [] total u h = absurd (cc h)
find-deltas name previous ((key, t) ∷ rest) total u h = elim (Bool-cases (str_eq key name)) [
  | inl e ↦
      let k = (eq_iff key name).0 e in
      let m = find-deltas-Missing name previous rest (ap (λ n. find n rest) (sym k) ∙ u.0) in
      let p = ap (λ n. find n previous) k in ground (arith, e, m, p, h)
  | inr e ↦ ground (arith, e, find-deltas name previous rest total u.1, h)
]

-- The counter has shown `last`, or nothing yet, and `d` is a reading that shows no less.
abbrev pub Gains : Option ℕ → ℕ → Type 0
Gains none total = Unit
Gains (some before) total = before ≤ total

-- While a counter does not fall, what is booked for it up to a reading is what that reading shows.
pub find-deltas_total :
    (name : String) (previous d : Counted) (total : ℕ)
    → IsDict d
    → find name d ≡ some total
    → Gains (find name previous) total
    → get_or (find name previous) 0 + get_or (find name (deltas previous d)) 0 ≡ total
unfolding moved_since
find-deltas_total name previous d total u h g =
    ap (λ n. get_or (find name previous) 0 + n) (find-deltas name previous d total u h)
    ∙ gained (find name previous) g
  where
    gained : (o : Option ℕ) → Gains o total → get_or o 0 + moved_since o total ≡ total
    gained none g = omega arith
    gained (some before) g = ground (arith, g)
