-- ===== src/Prelude/Sorting.antt =====
-- Saturating sums, the order of byte strings, and Rust's stable sort.
use Prim.Native.Nat.{ℕ, ◌+◌}
use mathlib.Core.Path.{◌≡◌, refl}
use mathlib.Core.Bool.{Bool, true, false, ◌||◌}
use mathlib.Core.Logic.{inl, inr}
use mathlib.Core.List.{List, [], ◌∷◌}
use native.Mathlib.Omega.{arith}
use hivra_app.Prelude.Tests.{if◌then◌else◌, ltb, Bool-cases}
use hivra_app.Prelude.Lists.{length, All, Pairwise}
use hivra_app.Prelude.Search.{any}

-- The largest `u64`.
abbrev pub u64_max : ℕ
u64_max = 18446744073709551615

-- `u64::saturating_add`
unfoldable pub saturating_add : ℕ → ℕ → ℕ
saturating_add a b = if ltb u64_max (a + b) then u64_max else a + b

-- `a <= b` of two strings, byte by byte.
unfoldable pub bytes_le : List ℕ → List ℕ → Bool
bytes_le [] ys = true
bytes_le (x ∷ xs) [] = false
bytes_le (x ∷ xs) (y ∷ ys) = if ltb x y then true else if ltb y x then false else bytes_le xs ys

module _ {ℓ} {A : Type ℓ} where
  unfoldable pub insert_by : (A → A → Bool) → A → List A → List A
  insert_by le a [] = a ∷ []
  insert_by le a (x ∷ xs) = if le a x then a ∷ x ∷ xs else x ∷ insert_by le a xs

  unfoldable pub sort_by : (A → A → Bool) → List A → List A
  sort_by le [] = []
  sort_by le (x ∷ xs) = insert_by le x (sort_by le xs)

  length-insert_by :
      (le : A → A → Bool) (a : A) (xs : List A) → length (insert_by le a xs) ≡ length xs + 1
  unfolding insert_by
  length-insert_by le a [] = refl
  length-insert_by le a (x ∷ xs) = ground (arith, length-insert_by le a xs)

  pub length-sort_by : (le : A → A → Bool) (xs : List A) → length (sort_by le xs) ≡ length xs
  unfolding sort_by
  length-sort_by le [] = refl
  length-sort_by le (x ∷ xs) =
      omega (arith, length-insert_by le x (sort_by le xs), length-sort_by le xs)

  any-insert_by :
      (le : A → A → Bool) (p : A → Bool) (a : A) (xs : List A)
      → any p (insert_by le a xs) ≡ (p a || any p xs)
  unfolding insert_by any
  any-insert_by le p a [] = refl
  any-insert_by le p a (x ∷ xs) = ground (arith, any-insert_by le p a xs)

  pub any-sort_by :
      (le : A → A → Bool) (p : A → Bool) (xs : List A) → any p (sort_by le xs) ≡ any p xs
  unfolding sort_by any
  any-sort_by le p [] = refl
  any-sort_by le p (x ∷ xs) =
      ground (arith, any-insert_by le p x (sort_by le xs), any-sort_by le p xs)

module _ {ℓ κ} {A : Type ℓ} (P : A → Type κ) where
  All-insert_by :
      (le : A → A → Bool) (a : A) (xs : List A) → P a → All P xs → All P (insert_by le a xs)
  unfolding insert_by
  All-insert_by le a [] h k = (h, tt)
  All-insert_by le a (x ∷ xs) h (now, later) = elim (Bool-cases (le a x)) [
    | inl on ↦ rw on (h, (now, later))
    | inr off ↦ rw off (now, All-insert_by le a xs h later)
  ]

  pub All-sort_by : (le : A → A → Bool) (xs : List A) → All P xs → All P (sort_by le xs)
  unfolding sort_by
  All-sort_by le [] h = tt
  All-sort_by le (x ∷ xs) (now, later) =
      All-insert_by le x (sort_by le xs) now (All-sort_by le xs later)

-- Each element stands in the order before all that follow it.
module _ {ℓ} {A : Type ℓ} (le : A → A → Bool) where
  abbrev pub Ordered : List A → Type 0
  Ordered = Pairwise (λ a b. le a b ≡ true)

  All-le :
      ((a b c : A) → le a b ≡ true → le b c ≡ true → le a c ≡ true)
      → (a x : A) (xs : List A) → le a x ≡ true
      → All (λ b. le x b ≡ true) xs
      → All (λ b. le a b ≡ true) xs
  All-le trans a x [] h k = tt
  All-le trans a x (y ∷ ys) h (now, later) = (trans a x y h now, All-le trans a x ys h later)

  insert_by-Ordered :
      ((a b : A) → le a b ≡ false → le b a ≡ true)
      → ((a b c : A) → le a b ≡ true → le b c ≡ true → le a c ≡ true)
      → (a : A) (xs : List A) → Ordered xs
      → Ordered (insert_by le a xs)
  unfolding insert_by
  insert_by-Ordered total trans a [] h = (tt, tt)
  insert_by-Ordered total trans a (x ∷ xs) (first, h) = elim (Bool-cases (le a x)) [
    | inl on ↦ rw on ((on, All-le trans a x xs on first), (first, h))
    | inr off ↦ rw off (
      All-insert_by (λ b. le x b ≡ true) le a xs (total a x off) first,
      insert_by-Ordered total trans a xs h,
    )
  ]

  pub sort_by-Ordered :
      ((a b : A) → le a b ≡ false → le b a ≡ true)
      → ((a b c : A) → le a b ≡ true → le b c ≡ true → le a c ≡ true)
      → (xs : List A) → Ordered (sort_by le xs)
  unfolding sort_by
  sort_by-Ordered total trans [] = tt
  sort_by-Ordered total trans (x ∷ xs) =
      insert_by-Ordered total trans x (sort_by le xs) (sort_by-Ordered total trans xs)

-- A symmetric relation between any two elements does not depend on their order.
module _ {ℓ κ} {A : Type ℓ} (le : A → A → Bool) (R : A → A → Type κ)
    (symmetric : (a b : A) → R a b → R b a) where
  All-flipped : (a : A) (xs : List A) → All (λ b. R b a) xs → All (R a) xs
  All-flipped a [] h = tt
  All-flipped a (x ∷ xs) (now, later) = (symmetric x a now, All-flipped a xs later)

  insert_by-Pairwise :
      (a : A) (xs : List A) → All (R a) xs → Pairwise R xs → Pairwise R (insert_by le a xs)
  unfolding insert_by
  insert_by-Pairwise a [] h k = (tt, tt)
  insert_by-Pairwise a (x ∷ xs) (now, later) (first, k) = elim (Bool-cases (le a x)) [
    | inl on ↦ rw on ((now, later), (first, k))
    | inr off ↦
        rw off
          (All-insert_by (R x) le a xs (symmetric a x now) first, insert_by-Pairwise a xs later k)
  ]

  pub sort_by-Pairwise : (xs : List A) → Pairwise R xs → Pairwise R (sort_by le xs)
  unfolding sort_by
  sort_by-Pairwise [] h = tt
  sort_by-Pairwise (x ∷ xs) (first, h) =
      insert_by-Pairwise x (sort_by le xs) (All-sort_by (R x) le xs first) (sort_by-Pairwise xs h)

pub bytes_le_total : (xs ys : List ℕ) → bytes_le xs ys ≡ false → bytes_le ys xs ≡ true
unfolding bytes_le
bytes_le_total [] ys h = cc
bytes_le_total (x ∷ xs) [] h = refl
bytes_le_total (x ∷ xs) (y ∷ ys) h = ground (arith, bytes_le_total xs ys)

pub bytes_le_trans :
    (xs ys zs : List ℕ) → bytes_le xs ys ≡ true → bytes_le ys zs ≡ true → bytes_le xs zs ≡ true
unfolding bytes_le
bytes_le_trans [] ys zs h k = refl
bytes_le_trans (x ∷ xs) [] zs h k = cc
bytes_le_trans (x ∷ xs) (y ∷ ys) [] h k = cc
bytes_le_trans (x ∷ xs) (y ∷ ys) (z ∷ zs) h k = ground (arith, bytes_le_trans xs ys zs)
