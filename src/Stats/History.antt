-- ===== src/Stats/History.antt =====
-- stats/history.py, `TrafficHistory`: the bounded series behind the traffic graph.
use v2pi.Base.{
  ℕ, zero, suc, ◌+◌, ◌-◌, ◌≤◌, ◌<◌, ◌≡◌, refl, arith, ltb, leb, min, max, Option, none, some, List,
  [], ◌∷◌, ◌++◌, ◌||◌, if◌then◌else◌, length, drop, keep, get_or, ◌==◌, length-drop, Option-cases,
  Bool-cases, inl, inr, ap,
}

-- One point: a time in milliseconds and two rates, rounded.
pub record Point : Type 0 where
  pub ts : ℕ
  pub up_bps : ℕ
  pub down_bps : ℕ

-- `bounded_interval_ms`; `none` is a value that `int` refuses, and a negative number counts as 0.
unfoldable pub bounded_interval_ms : Option ℕ → ℕ → ℕ
bounded_interval_ms value default = min 60000 (max 500 (get_or value default))

unfoldable pub last_point : List Point → Option Point
last_point [] = none
last_point (p ∷ []) = some p
last_point (p ∷ q ∷ ps) = last_point (q ∷ ps)

-- A clock that was set back does not run the series backwards.
unfoldable pub clamp_ts : ℕ → List Point → ℕ
unfolding last_point
clamp_ts ts buf = elim (last_point buf) [ none ↦ ts | some p ↦ if ltb ts p.ts then p.ts else ts ]

-- `TrafficHistory.record`: the time that was stored, and the series of at most `maxlen` points.
unfoldable pub note : ℕ → ℕ → ℕ → ℕ → List Point → ℕ × List Point
unfolding clamp_ts
note maxlen ts up down buf =
    let t = clamp_ts ts buf in
    let longer = buf ++ record { ts = t; up_bps = up; down_bps = down } ∷ [] in
    (t, drop (length longer - maxlen) longer)

module _ {A : Type 0} where
  nth_or : ℕ → List A → A → A
  nth_or n [] d = d
  nth_or zero (x ∷ xs) d = x
  nth_or (suc n) (x ∷ xs) d = nth_or n xs d

  pub last_or : List A → A → A
  last_or [] d = d
  last_or (x ∷ xs) d = last_or xs x

  -- The entries at `at i` for `i` below `n`, the last of them replaced by the last entry.
  strided : ℕ → ℕ → (ℕ → ℕ) → A → List A → List A
  strided zero i at d items = []
  strided (suc zero) i at d items = last_or items d ∷ []
  strided (suc (suc n)) i at d items = nth_or (at i) items d ∷ strided (suc n) (i + 1) at d items

  -- `_downsample`; `at i` is `int(i * step)`, which is computed in floating point.
  unfoldable pub downsample : (ℕ → ℕ) → ℕ → List A → List A
  unfolding strided nth_or last_or
  downsample at n [] = []
  downsample at n (x ∷ xs) =
      if n == 0 || leb (length (x ∷ xs)) n then x ∷ xs else strided n 0 at x (x ∷ xs)

-- `TrafficHistory.series`
unfoldable pub series : (ℕ → ℕ) → Option ℕ → Option ℕ → List Point → List Point
series at since max_points buf =
    let items : List Point = elim since [ none ↦ buf | some t ↦ keep (λ p. leb t p.ts) buf ] in
    elim max_points [ none ↦ items | some n ↦ if n == 0 then items else downsample at n items ]

-- Times never fall.
abbrev pub IsMonotone : ℕ → List Point → Type 0
IsMonotone lo [] = Unit
IsMonotone lo (p ∷ ps) = (lo ≤ p.ts) × IsMonotone p.ts ps

IsMonotone-append :
    (lo t : ℕ) (q : Point) (buf : List Point) (p : Point)
    → p.ts ≡ clamp_ts t (q ∷ buf)
    → IsMonotone lo (q ∷ buf)
    → IsMonotone lo (q ∷ buf ++ p ∷ [])
unfolding clamp_ts last_point
IsMonotone-append lo t q [] p e h = (h.0, (ground arith, tt))
IsMonotone-append lo t q (r ∷ ps) p e h = (h.0, IsMonotone-append q.ts t r ps p e h.1)

IsMonotone-lower : (lo lo' : ℕ) (ps : List Point) → lo ≤ lo' → IsMonotone lo' ps → IsMonotone lo ps
IsMonotone-lower lo lo' [] le h = tt
IsMonotone-lower lo lo' (p ∷ ps) le h = (omega (arith, h.0), h.1)

IsMonotone-drop : (n lo : ℕ) (ps : List Point) → IsMonotone lo ps → IsMonotone lo (drop n ps)
IsMonotone-drop zero lo ps h = h
IsMonotone-drop (suc n) lo [] h = tt
IsMonotone-drop (suc n) lo (p ∷ ps) h =
    IsMonotone-drop n lo ps (IsMonotone-lower lo p.ts ps h.0 h.1)

-- The series stays within its bound and its times never fall, whatever the clock does; the time that
-- is answered is not before the one given.
pub note-IsMonotone :
    (maxlen ts up down : ℕ) (buf : List Point)
    → IsMonotone 0 buf
    → IsMonotone 0 (note maxlen ts up down buf).1
      × (length (note maxlen ts up down buf).1 ≤ maxlen)
      × (ts ≤ (note maxlen ts up down buf).0)
unfolding note clamp_ts
note-IsMonotone maxlen ts up down buf h =
    let p : Point = record { ts = clamp_ts ts buf; up_bps = up; down_bps = down } in
    (
      IsMonotone-drop (length (buf ++ p ∷ []) - maxlen) 0 (buf ++ p ∷ []) (longer buf h),
      omega (arith, length-drop (length (buf ++ p ∷ []) - maxlen) (buf ++ p ∷ [])),
      later buf,
    )
  where
    longer :
        (buf : List Point)
        → IsMonotone 0 buf
        → IsMonotone 0 (buf ++ record { ts = clamp_ts ts buf; up_bps = up; down_bps = down } ∷ [])
    longer [] h = (omega arith, tt)
    longer (q ∷ ps) h = IsMonotone-append 0 ts q ps _ refl h

    later : (buf : List Point) → ts ≤ clamp_ts ts buf
    later buf = elim (Option-cases (last_point buf)) [
      | inl e ↦ rw (e, clamp_ts) (omega arith)
      | inr (p, e) ↦ rw (e, clamp_ts) (ground arith)
    ]

module _ {A : Type 0} where
  length-strided :
      (n i : ℕ) (at : ℕ → ℕ) (d : A) (items : List A) → length (strided n i at d items) ≡ n
  unfolding strided
  length-strided zero i at d items = refl
  length-strided (suc zero) i at d items = refl
  length-strided (suc (suc n)) i at d items = ap suc (length-strided (suc n) (i + 1) at d items)

  last_or-strided :
      (n i : ℕ) (at : ℕ → ℕ) (d e : A) (items : List A)
      → last_or (strided (suc n) i at d items) e ≡ last_or items d
  unfolding strided last_or
  last_or-strided zero i at d e items = refl
  last_or-strided (suc n) i at d e items =
      last_or-strided n (i + 1) at d (nth_or (at i) items d) items

  -- Whatever the stride, at most `n` points come out of a longer series, and the newest is the last.
  pub downsample-newest :
      (at : ℕ → ℕ) (n : ℕ) (x : A) (xs : List A)
      → 0 < n
      → (length (downsample at n (x ∷ xs)) ≤ n)
        × (last_or (downsample at n (x ∷ xs)) x ≡ last_or xs x)
  unfolding downsample
  downsample-newest at zero x xs h = absurd (omega arith)
  downsample-newest at (suc n) x xs h =
      elim (Bool-cases (suc n == 0 || leb (length (x ∷ xs)) (suc n))) [
        | inl e ↦ rw (e, downsample) (ground arith, refl)
        | inr e ↦
            rw (e, downsample)
              (
                omega (arith, length-strided (suc n) 0 at x (x ∷ xs)),
                last_or-strided n 0 at x x (x ∷ xs),
              )
      ]
