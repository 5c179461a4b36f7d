-- ===== src/Health/Table/Counting.antt =====
-- nodes/store.py, `update_health_real`: `fail_count` is the number of failures since the last
-- success, and a result that arrives late changes nothing.
use v2pi.Base.{
  ℕ, ◌+◌, ◌≡◌, ◌≤◌, refl, arith, true, false, ◌==◌, ==_iff, Option, none, some, List, [], ◌∷◌,
  length, Bool-cases, inl, inr, if◌then◌else◌, ◌∙◌, subst,
}
use v2pi.Health.{NodeHealth, find_health}
use v2pi.Health.Table.{RealCheck, upsert, outdated, first_real, next_real, update_health_real}

-- The primary key: no two rows are of one node.
abbrev pub IsKeyed : List NodeHealth → Type 0
IsKeyed [] = Unit
IsKeyed (h ∷ rows) = (find_health rows (some h.node_id) ≡ none) × IsKeyed rows

-- What `upsert` puts in the place of the row that it finds.
abbrev pub written : NodeHealth → (NodeHealth → NodeHealth) → Option NodeHealth → NodeHealth
written fresh change none = fresh
written fresh change (some h) = change h

-- Only the row of `i` is written.
pub find_health-upsert :
    (i j : ℕ) (fresh : NodeHealth) (change : NodeHealth → NodeHealth) (rows : List NodeHealth)
    → fresh.node_id ≡ i
    → ((h : NodeHealth) → (change h).node_id ≡ h.node_id)
    → IsKeyed rows
    → find_health (upsert i fresh change rows) (some j) ≡ (
        if i == j
        then some (written fresh change (find_health rows (some i)))
        else find_health rows (some j))
unfolding find_health upsert
find_health-upsert i j fresh change [] f k u = ground arith
find_health-upsert i j fresh change (x ∷ rows) f k u =
    ground (arith, find_health-upsert i j fresh change rows f k u.1, k x, u.0)

upsert-IsKeyed :
    (i : ℕ) (fresh : NodeHealth) (change : NodeHealth → NodeHealth) (rows : List NodeHealth)
    → fresh.node_id ≡ i
    → ((h : NodeHealth) → (change h).node_id ≡ h.node_id)
    → IsKeyed rows
    → IsKeyed (upsert i fresh change rows)
unfolding find_health upsert
upsert-IsKeyed i fresh change [] f k u = (refl, tt)
upsert-IsKeyed i fresh change (x ∷ rows) f k u = elim (Bool-cases (x.node_id == i)) [
  | inl e ↦ rw e (rw (k x) u.0, u.1)
  | inr e ↦ rw e (
    find_health-upsert i x.node_id fresh change rows f k u.1 ∙ ground (arith, u.0),
    upsert-IsKeyed i fresh change rows f k u.1,
  )
]

next_real-node_id : (c : RealCheck) (h : NodeHealth) → (next_real c h).node_id ≡ h.node_id
unfolding next_real
next_real-node_id c h = ground arith

find_health-update_health_real :
    (i j : ℕ) (c : RealCheck) (rows : List NodeHealth)
    → IsKeyed rows
    → find_health (update_health_real i c rows) (some j) ≡ (
        if i == j
        then some (written (first_real i c) (next_real c) (find_health rows (some i)))
        else find_health rows (some j))
unfolding update_health_real
find_health-update_health_real i j c rows u =
    find_health-upsert i j (first_real i c) (next_real c) rows (unfold first_real in refl)
      (next_real-node_id c) u

update_health_real-IsKeyed :
    (i : ℕ) (c : RealCheck) (rows : List NodeHealth)
    → IsKeyed rows
    → IsKeyed (update_health_real i c rows)
unfolding update_health_real
update_health_real-IsKeyed i c rows u =
    upsert-IsKeyed i (first_real i c) (next_real c) rows (unfold first_real in refl)
      (next_real-node_id c) u

-- The results of node `i`, written one after the other.
abbrev pub write_all : ℕ → List RealCheck → List NodeHealth → List NodeHealth
write_all i [] rows = rows
write_all i (c ∷ cs) rows = write_all i cs (update_health_real i c rows)

-- Every check failed, and none is older than the one before it; the first is not older than `t`.
abbrev pub FailInOrder : ℕ → List RealCheck → Type 0
FailInOrder t [] = Unit
FailInOrder t (c ∷ cs) = (c.real_ok ≡ false) × (t ≤ c.checked_at) × FailInOrder c.checked_at cs

-- The row of `i` was last checked at `t`, and has failed `k` times since its last success.
abbrev pub RowAt : ℕ → List NodeHealth → ℕ → ℕ → Type 0
RowAt i rows t k =
    (h : NodeHealth) × (find_health rows (some i) ≡ some h)
    × (h.checked_at ≡ some t)
    × (h.fail_count ≡ k)

failure :
    (i : ℕ) (c : RealCheck) (rows : List NodeHealth) (t k : ℕ)
    → IsKeyed rows
    → c.real_ok ≡ false
    → t ≤ c.checked_at
    → RowAt i rows t k
    → RowAt i (update_health_real i c rows) c.checked_at (k + 1)
failure i c rows t k u f le (h, e, at, n) = (
  next_real c h,
  find_health-update_health_real i i c rows u ∙ ground (arith, e),
  unfold next_real in ground arith,
  unfold next_real in ground arith,
)

success :
    (i : ℕ) (c : RealCheck) (rows : List NodeHealth)
    → IsKeyed rows
    → c.real_ok ≡ true
    → ((h : NodeHealth)
        → find_health rows (some i) ≡ some h
        → outdated h.checked_at c.checked_at ≡ false)
    → RowAt i (update_health_real i c rows) c.checked_at 0
success i c rows u ok timely = go (find_health rows (some i)) refl
  where
    go :
        (o : Option NodeHealth)
        → find_health rows (some i) ≡ o
        → RowAt i (update_health_real i c rows) c.checked_at 0
    go none e = (
      first_real i c,
      find_health-update_health_real i i c rows u ∙ ground (arith, e),
      unfold first_real in refl,
      unfold first_real in ground arith,
    )
    go (some h) e = (
      next_real c h,
      find_health-update_health_real i i c rows u ∙ ground (arith, e),
      unfold next_real in ground (arith, timely h e),
      unfold next_real in ground (arith, timely h e),
    )

failures :
    (i : ℕ) (cs : List RealCheck) (rows : List NodeHealth) (t k : ℕ)
    → IsKeyed rows
    → FailInOrder t cs
    → RowAt i rows t k
    → (t' : ℕ) × RowAt i (write_all i cs rows) t' (k + length cs)
failures i [] rows t k u f r = (t, subst (RowAt i rows t) (omega arith) r)
failures i (c ∷ cs) rows t k u (bad, le, f) r =
    let (t', r') =
      failures i cs (update_health_real i c rows) c.checked_at (k + 1)
        (update_health_real-IsKeyed i c rows u) f (failure i c rows t k u bad le r) in
    (t', subst (RowAt i (write_all i (c ∷ cs) rows) t') (omega arith) r')

-- After a success that is not outdated and failures in the order of their times, `fail_count` is
-- the number of those failures, whatever the row was before.
pub fail_count-streak :
    (i : ℕ) (good : RealCheck) (bad : List RealCheck) (rows : List NodeHealth)
    → IsKeyed rows
    → good.real_ok ≡ true
    → ((h : NodeHealth)
        → find_health rows (some i) ≡ some h
        → outdated h.checked_at good.checked_at ≡ false)
    → FailInOrder good.checked_at bad
    → (h : NodeHealth) × (find_health (write_all i (good ∷ bad) rows) (some i) ≡ some h)
      × (h.fail_count ≡ length bad)
fail_count-streak i good bad rows u ok timely f =
    let (t, last) =
      failures i bad (update_health_real i good rows) good.checked_at 0
        (update_health_real-IsKeyed i good rows u) f (success i good rows u ok timely) in
    let (h, e, _, n) = last in (h, e, n ∙ omega arith)

-- A result older than the row of its node changes no row that can be found.
pub update_health_real-late :
    (i j : ℕ) (c : RealCheck) (rows : List NodeHealth) (h : NodeHealth)
    → IsKeyed rows
    → find_health rows (some i) ≡ some h
    → outdated h.checked_at c.checked_at ≡ true
    → find_health (update_health_real i c rows) (some j) ≡ find_health rows (some j)
update_health_real-late i j c rows h u e late =
    find_health-update_health_real i j c rows u
    ∙ (unfold next_real in ground (arith, e, ==_iff i j))
