-- ===== src/Base/Assoc.antt =====
-- Dicts keyed by numbers, as association lists.
use v2pi.Base.Tests.{◌==◌, ==_iff, if◌then◌else◌, Bool-cases}
use v2pi.Base.Lists.{keep}
use Prim.Native.Nat.{ℕ}
use mathlib.Core.Path.{◌≡◌, refl, ap, ◌∙◌}
use mathlib.Core.Logic.{inl, inr}
use mathlib.Core.Bool.{Bool, true}
use mathlib.Core.Option.{Option, none, some}
use mathlib.Core.List.{List, [], ◌∷◌}
use native.Mathlib.Omega.{arith}

module _ {ℓ} {A : Type ℓ} where
  -- `d.get(k)`
  unfoldable pub lookup : ℕ → List (ℕ × A) → Option A
  lookup k [] = none
  lookup k ((j, v) ∷ d) = let rest = lookup k d in if j == k then some v else rest

  -- `d[k] = v`
  unfoldable pub put : ℕ → A → List (ℕ × A) → List (ℕ × A)
  put k v [] = (k, v) ∷ []
  put k v ((j, w) ∷ d) = let rest = put k v d in if j == k then (k, v) ∷ d else (j, w) ∷ rest

  -- `d.pop(k, None)`: no key stands twice.
  unfoldable pub pop : ℕ → List (ℕ × A) → List (ℕ × A)
  pop k [] = []
  pop k ((j, w) ∷ d) = let rest = pop k d in if j == k then rest else (j, w) ∷ rest

  pub lookup-put :
      (k j : ℕ) (v : A) (d : List (ℕ × A))
      → lookup j (put k v d) ≡ (if k == j then some v else lookup j d)
  unfolding lookup put
  lookup-put k j v [] = refl
  lookup-put k j v ((i, w) ∷ d) = ground (arith, lookup-put k j v d)

  pub lookup-pop :
      (k j : ℕ) (d : List (ℕ × A)) → lookup j (pop k d) ≡ (if k == j then none else lookup j d)
  unfolding lookup pop
  lookup-pop k j [] = ground arith
  lookup-pop k j ((i, w) ∷ d) = ground (arith, lookup-pop k j d)

  -- Only the keys that satisfy `p` stay.
  pub lookup-keep :
      (p : ℕ → Bool) (j : ℕ) (d : List (ℕ × A))
      → lookup j (keep (λ (e : ℕ × A). p e.0) d) ≡ (if p j then lookup j d else none)
  unfolding lookup keep
  lookup-keep p j [] = ground arith
  lookup-keep p j ((i, w) ∷ d) = elim (Bool-cases (p i)) [
    | inl e ↦ rw e (ground (arith, lookup-keep p j d, same i))
    | inr e ↦ rw e (lookup-keep p j d ∙ ground (arith, same i))
  ]
    where
      same : (i : ℕ) → (i == j) ≡ true → p i ≡ p j
      same i q = ap p ((==_iff i j).0 q)
