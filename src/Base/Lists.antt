-- ===== src/Base/Lists.antt =====
-- Lists over the native numbers, Boolean filters, and membership as a predicate by recursion.
use Prim.Native.Nat.{ℕ, zero, suc, ◌≤◌, ◌+◌, ◌-◌}
use mathlib.Core.Path.{◌≡◌, refl, ap, sym, subst, ◌∙◌}
use mathlib.Core.Logic.{inl, inr}
use mathlib.Core.Bool.{Bool, true, false, ◌||◌}
use mathlib.Core.List.{List, [], ◌∷◌, ◌++◌, map, Memᴰ}
use native.Mathlib.Omega.{arith}
use v2pi.Base.Tests.{Bool-cases, if◌then◌else◌}

module _ {ℓ} {A : Type ℓ} where
  abbrev pub length : List A → ℕ
  length [] = 0
  length (x ∷ xs) = suc (length xs)

  abbrev pub take : ℕ → List A → List A
  take zero xs = []
  take (suc n) [] = []
  take (suc n) (x ∷ xs) = x ∷ take n xs

  -- `[x for x in xs if p(x)]`.
  unfoldable pub keep : (A → Bool) → List A → List A
  keep p [] = []
  keep p (x ∷ xs) = let rest = keep p xs in if p x then x ∷ rest else rest

  -- `any(p(x) for x in xs)`.
  unfoldable pub any_of : (A → Bool) → List A → Bool
  any_of p [] = false
  any_of p (x ∷ xs) = p x || any_of p xs

  -- `P` holds of every entry.
  abbrev pub All {κ} : (A → Type κ) → List A → Type κ
  All P [] = Unit
  All P (x ∷ xs) = P x × All P xs

  pub All-mem {κ} : (P : A → Type κ) {a : A} {xs : List A} → All P xs → Memᴰ a xs → P a
  All-mem P h (Memᴰ.head e) = subst P (sym e) h.0
  All-mem P h (Memᴰ.tail m) = All-mem P h.1 m

  pub keep-mem :
      (p : A → Bool) (a : A) (xs : List A) → Memᴰ a (keep p xs) → Memᴰ a xs × (p a ≡ true)
  unfolding keep
  keep-mem p a [] m = elim m [ ]
  keep-mem p a (x ∷ xs) m = elim (Bool-cases (p x)) [
    | inl e ↦ keep-mem_head p a x xs e (keep-mem p a xs) (rw e at m)
    | inr e ↦ let r = keep-mem p a xs (rw e at m) in (Memᴰ.tail r.0, r.1)
  ]
    where
      keep-mem_head :
          (p : A → Bool) (a x : A) (xs : List A)
          → p x ≡ true
          → (Memᴰ a (keep p xs) → Memᴰ a xs × (p a ≡ true))
          → Memᴰ a (x ∷ keep p xs)
          → Memᴰ a (x ∷ xs) × (p a ≡ true)
      keep-mem_head p a x xs e ih (Memᴰ.head q) = (Memᴰ.head q, ap p q ∙ e)
      keep-mem_head p a x xs e ih (Memᴰ.tail m) = let r = ih m in (Memᴰ.tail r.0, r.1)

  pub mem-keep : (p : A → Bool) {a : A} {xs : List A} → Memᴰ a xs → p a ≡ true → Memᴰ a (keep p xs)
  unfolding keep
  mem-keep p (Memᴰ.head {x} q) h = rw (ap p (sym q) ∙ h) (Memᴰ.head q)
  mem-keep p (Memᴰ.tail {x} m) h = elim (Bool-cases (p x)) [
    | inl e ↦ rw e (Memᴰ.tail (mem-keep p m h))
    | inr e ↦ rw e (mem-keep p m h)
  ]

  pub mem-take : (n : ℕ) {a : A} (xs : List A) → Memᴰ a (take n xs) → Memᴰ a xs
  mem-take zero xs m = elim m [ ]
  mem-take (suc n) [] m = elim m [ ]
  mem-take (suc n) (x ∷ xs) (Memᴰ.head e) = Memᴰ.head e
  mem-take (suc n) (x ∷ xs) (Memᴰ.tail m) = Memᴰ.tail (mem-take n xs m)

  pub length-take-le : (n : ℕ) (xs : List A) → length (take n xs) ≤ n
  length-take-le zero xs = omega arith
  length-take-le (suc n) [] = omega arith
  length-take-le (suc n) (x ∷ xs) = omega (arith, length-take-le n xs)

  pub length-keep-le : (p : A → Bool) (xs : List A) → length (keep p xs) ≤ length xs
  unfolding keep
  length-keep-le p [] = omega arith
  length-keep-le p (x ∷ xs) = ground (arith, length-keep-le p xs)

  any_of-cons : (p : A → Bool) (x : A) (xs : List A) → any_of p (x ∷ xs) ≡ (p x || any_of p xs)
  unfolding any_of
  any_of-cons p x xs = refl

  pub any_of-false :
      (p : A → Bool) (xs : List A) → any_of p xs ≡ false → (a : A) → Memᴰ a xs → p a ≡ false
  unfolding any_of
  any_of-false p [] h a m = elim m [ ]
  any_of-false p (x ∷ xs) h a (Memᴰ.head e) = ap p e ∙ ground arith
  any_of-false p (x ∷ xs) h a (Memᴰ.tail m) = any_of-false p xs (ground arith) a m

  pub any_of-false_of :
      (p : A → Bool) (xs : List A) → ((a : A) → Memᴰ a xs → p a ≡ false) → any_of p xs ≡ false
  unfolding any_of
  any_of-false_of p [] h = refl
  any_of-false_of p (x ∷ xs) h =
      rw (h x (Memᴰ.head refl)) (any_of-false_of p xs (λ a m. h a (Memᴰ.tail m)))

module _ {ℓ} {A : Type ℓ} where
  pub any_of-true_of :
      (p : A → Bool) {a : A} {xs : List A} → Memᴰ a xs → p a ≡ true → any_of p xs ≡ true
  unfolding any_of
  any_of-true_of p (Memᴰ.head {xs} q) h = rw (ap p (sym q) ∙ h) refl
  any_of-true_of p (Memᴰ.tail {x} m) h = rw (any_of-true_of p m h) (ground arith)

  pub any_of-witness :
      (p : A → Bool) (xs : List A) → any_of p xs ≡ true → (a : A) × (Memᴰ a xs × (p a ≡ true))
  unfolding any_of
  any_of-witness p [] h = absurd (cc h)
  any_of-witness p (x ∷ xs) h = elim (Bool-cases (p x)) [
    | inl e ↦ (x, (Memᴰ.head refl, e))
    | inr e ↦ let (a, (m, q)) = any_of-witness p xs (rw e at h) in (a, (Memᴰ.tail m, q))
  ]

  pub All-of {κ} : (P : A → Type κ) (xs : List A) → ((a : A) → Memᴰ a xs → P a) → All P xs
  All-of P [] h = tt
  All-of P (x ∷ xs) h = (h x (Memᴰ.head refl), All-of P xs (λ a m. h a (Memᴰ.tail m)))

module _ {ℓ} {A : Type ℓ} where
  abbrev pub drop : ℕ → List A → List A
  drop zero xs = xs
  drop (suc n) [] = []
  drop (suc n) (x ∷ xs) = drop n xs

  pub length-drop : (n : ℕ) (xs : List A) → length (drop n xs) ≡ length xs - n
  length-drop zero xs = omega arith
  length-drop (suc n) [] = omega arith
  length-drop (suc n) (x ∷ xs) = omega (arith, length-drop n xs)

  pub length-append : (xs ys : List A) → length (xs ++ ys) ≡ length xs + length ys
  length-append [] ys = omega arith
  length-append (x ∷ xs) ys = omega (arith, length-append xs ys)

  pub mem-append_right : (xs : List A) {ys : List A} {a : A} → Memᴰ a ys → Memᴰ a (xs ++ ys)
  mem-append_right [] m = m
  mem-append_right (x ∷ xs) m = Memᴰ.tail (mem-append_right xs m)

  pub mem-append_left : {a : A} {xs : List A} (ys : List A) → Memᴰ a xs → Memᴰ a (xs ++ ys)
  mem-append_left ys (Memᴰ.head e) = Memᴰ.head e
  mem-append_left ys (Memᴰ.tail m) = Memᴰ.tail (mem-append_left ys m)

-- A predicate over the results of the list functions.
module _ {ℓ κ} {A : Type ℓ} (P : A → Type κ) where
  pub All-append : (xs ys : List A) → All P xs → All P ys → All P (xs ++ ys)
  All-append [] ys hx hy = hy
  All-append (x ∷ xs) ys hx hy = (hx.0, All-append xs ys hx.1 hy)

  pub All-append_left : (xs ys : List A) → All P (xs ++ ys) → All P xs
  All-append_left [] ys h = tt
  All-append_left (x ∷ xs) ys h = (h.0, All-append_left xs ys h.1)

  pub All-append_right : (xs ys : List A) → All P (xs ++ ys) → All P ys
  All-append_right [] ys h = h
  All-append_right (x ∷ xs) ys h = All-append_right xs ys h.1

  pub All-map :
      (f : A → A) (xs : List A)
      → ((x : A) → Memᴰ x xs → P x → P (f x))
      → All P xs
      → All P (map f xs)
  All-map f [] step h = tt
  All-map f (x ∷ xs) step h =
      (step x (Memᴰ.head refl) h.0, All-map f xs (λ y m. step y (Memᴰ.tail m)) h.1)

  pub All-keep : (p : A → Bool) (xs : List A) → All P xs → All P (keep p xs)
  unfolding keep
  All-keep p [] h = tt
  All-keep p (x ∷ xs) h = elim (Bool-cases (p x)) [
    | inl e ↦ rw e (h.0, All-keep p xs h.1)
    | inr e ↦ rw e (All-keep p xs h.1)
  ]

module _ {ℓ} {A : Type ℓ} (q : A → Bool) where
  pub any_of-append : (xs ys : List A) → any_of q (xs ++ ys) ≡ (any_of q xs || any_of q ys)
  unfolding any_of
  any_of-append [] ys = refl
  any_of-append (x ∷ xs) ys = ground (arith, any_of-append xs ys)

  pub any_of-map :
      (f : A → A) (xs : List A) → ((x : A) → q (f x) ≡ q x) → any_of q (map f xs) ≡ any_of q xs
  unfolding any_of
  any_of-map f [] same = refl
  any_of-map f (x ∷ xs) same = rw (same x, any_of-map f xs same)

  -- What is dropped is not what is looked for.
  pub any_of-keep :
      (p : A → Bool) (xs : List A)
      → ((x : A) → q x ≡ true → p x ≡ true)
      → any_of q (keep p xs) ≡ any_of q xs
  unfolding any_of keep
  any_of-keep p [] h = refl
  any_of-keep p (x ∷ xs) h = elim (Bool-cases (p x)) [
    | inl e ↦ rw e (rw (any_of-keep p xs h))
    | inr e ↦ rw (e, any_of-keep p xs h) (ground (arith, h x))
  ]
