-- ===== src/Base/Sort.antt =====
-- Python's `sorted(xs, key=..., reverse=True)`. `above x y` says that the key of `x` is strictly
-- greater than the key of `y`. Python keeps the order of entries with equal keys under `reverse` too.
use mathlib.Core.Path.{◌≡◌, refl, ap, sym, subst, ◌∙◌}
use mathlib.Core.Logic.{◌⊎◌, inl, inr}
use mathlib.Core.Bool.{Bool, true, false}
use mathlib.Core.List.{List, [], ◌∷◌, Memᴰ, Perm}
use mathlib.Core.List.Perm
use mathlib.Core.List.Memᴰ
use native.Mathlib.Omega.{arith}
use v2pi.Base.Tests.{Bool-cases, if◌then◌else◌}
use v2pi.Base.Lists.{keep}

module _ {ℓ} {A : Type ℓ} (above : A → A → Bool) where
  insert : A → List A → List A
  insert x [] = x ∷ []
  insert x (y ∷ ys) = let rest = insert x ys in if above y x then y ∷ rest else x ∷ y ∷ ys

  unfoldable pub sort : List A → List A
  unfolding insert
  sort [] = []
  sort (x ∷ xs) = insert x (sort xs)

  -- No entry is above one that stands before it.
  abbrev pub Descends : List A → Type ℓ
  Descends [] = Unit
  Descends (x ∷ xs) = ((y : A) → Memᴰ y xs → above y x ≡ false) × Descends xs

  insert-perm : (x : A) (ys : List A) → Perm (insert x ys) (x ∷ ys)
  unfolding insert
  insert-perm x [] = Perm.refl (x ∷ [])
  insert-perm x (y ∷ ys) = elim (Bool-cases (above y x)) [
    | inl e ↦ rw e (Perm.trans (Perm.cons y (insert-perm x ys)) (Perm.swap x y ys))
    | inr e ↦ rw e (Perm.refl (x ∷ y ∷ ys))
  ]

  -- Sorting rearranges, and neither drops nor adds.
  pub sort-perm : (xs : List A) → Perm (sort xs) xs
  unfolding sort
  sort-perm [] = Perm.refl []
  sort-perm (x ∷ xs) = Perm.trans (insert-perm x (sort xs)) (Perm.cons x (sort-perm xs))

  mem-insert_cases : (x a : A) (ys : List A) → Memᴰ a (insert x ys) → (a ≡ x) ⊎ Memᴰ a ys
  unfolding insert
  mem-insert_cases x a [] (Memᴰ.head e) = inl e
  mem-insert_cases x a [] (Memᴰ.tail m) = inr m
  mem-insert_cases x a (y ∷ ys) m = elim (Bool-cases (above y x)) [
    | inl e ↦ later (mem-insert_cases x a ys) (rw e at m)
    | inr e ↦ Memᴰ.cases_cons (rw e at m)
  ]
    where
      later :
          (Memᴰ a (insert x ys) → (a ≡ x) ⊎ Memᴰ a ys)
          → Memᴰ a (y ∷ insert x ys)
          → (a ≡ x) ⊎ Memᴰ a (y ∷ ys)
      later ih (Memᴰ.head q) = inr (Memᴰ.head q)
      later ih (Memᴰ.tail r) = elim (ih r) [ inl q ↦ inl q | inr s ↦ inr (Memᴰ.tail s) ]

  pub mem-sort : (a : A) (xs : List A) → Memᴰ a (sort xs) → Memᴰ a xs
  unfolding sort
  mem-sort a [] m = m
  mem-sort a (x ∷ xs) m = elim (mem-insert_cases x a (sort xs) m) [
    | inl e ↦ Memᴰ.head e
    | inr r ↦ Memᴰ.tail (mem-sort a xs r)
  ]

  mem-insert_self : (x : A) (ys : List A) → Memᴰ x (insert x ys)
  unfolding insert
  mem-insert_self x [] = Memᴰ.head refl
  mem-insert_self x (y ∷ ys) = elim (Bool-cases (above y x)) [
    | inl e ↦ rw e (Memᴰ.tail (mem-insert_self x ys))
    | inr e ↦ rw e (Memᴰ.head refl)
  ]

  mem-insert_other : (x : A) {a : A} {ys : List A} → Memᴰ a ys → Memᴰ a (insert x ys)
  unfolding insert
  mem-insert_other x (Memᴰ.head {x = y} q) = elim (Bool-cases (above y x)) [
    | inl e ↦ rw e (Memᴰ.head q)
    | inr e ↦ rw e (Memᴰ.tail (Memᴰ.head q))
  ]
  mem-insert_other x (Memᴰ.tail {x = y} m) = elim (Bool-cases (above y x)) [
    | inl e ↦ rw e (Memᴰ.tail (mem-insert_other x m))
    | inr e ↦ rw e (Memᴰ.tail (Memᴰ.tail m))
  ]

  pub sort-mem : {a : A} {xs : List A} → Memᴰ a xs → Memᴰ a (sort xs)
  unfolding sort
  sort-mem (Memᴰ.head {x} {xs} q) =
      subst (λ b. Memᴰ b (insert x (sort xs))) (sym q) (mem-insert_self x (sort xs))
  sort-mem (Memᴰ.tail {x} m) = mem-insert_other x (sort-mem m)

  -- Of entries that are tied with one another, the order is kept.
  insert-keep :
      (p : A → Bool) (x : A) (ys : List A)
      → ((a b : A) → p a ≡ true → p b ≡ true → above a b ≡ false)
      → keep p (insert x ys) ≡ keep p (x ∷ ys)
  unfolding insert keep
  insert-keep p x [] tied = refl
  insert-keep p x (y ∷ ys) tied = ground (arith, insert-keep p x ys tied, tied y x)

  pub sort_stable :
      (p : A → Bool) (xs : List A)
      → ((a b : A) → p a ≡ true → p b ≡ true → above a b ≡ false)
      → keep p (sort xs) ≡ keep p xs
  unfolding sort keep
  sort_stable p [] tied = refl
  sort_stable p (x ∷ xs) tied =
      insert-keep p x (sort xs) tied
      ∙ ap (λ rest. if p x then x ∷ rest else rest) (sort_stable p xs tied)

-- What makes a key comparison an order.
pub record IsRanking {ℓ} {A : Type ℓ} (above : A → A → Bool) : Type ℓ where
  pub asym : (a b : A) → above a b ≡ true → above b a ≡ false
  pub not_trans : (a b c : A) → above a b ≡ false → above b c ≡ false → above a c ≡ false

module _ {ℓ} {A : Type ℓ} (above : A → A → Bool) (order : IsRanking above) where
  insert-Descends : (x : A) (ys : List A) → Descends above ys → Descends above (insert above x ys)
  unfolding insert
  insert-Descends x [] d = (λ y m. elim m [ ], tt)
  insert-Descends x (y ∷ ys) d = elim (Bool-cases (above y x)) [
    | inl e ↦ rw e (
      λ z m. elim (mem-insert_cases above x z ys m) [
        | inl q ↦ rw q (order.asym y x e)
        | inr r ↦ d.0 z r
      ],
      insert-Descends x ys d.1,
    )
    | inr e ↦ rw e (
      λ z m. elim (Memᴰ.cases_cons m) [
        | inl q ↦ rw q e
        | inr r ↦ order.not_trans z y x (d.0 z r) e
      ],
      d,
    )
  ]

  -- The result is in descending order of the keys.
  pub sort-Descends : (xs : List A) → Descends above (sort above xs)
  unfolding sort
  sort-Descends [] = tt
  sort-Descends (x ∷ xs) = insert-Descends x (sort above xs) (sort-Descends xs)
