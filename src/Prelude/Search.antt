-- ===== src/Prelude/Search.antt =====
-- Searches in lists by a Boolean test: what `any`, `find`, `position`, `retain` and `filter` of
-- Rust's iterators do.
use mathlib.Core.Logic.{inl, inr}
use Prim.Native.Nat.{ℕ, suc, ◌-◌, ◌<◌}
use mathlib.Core.Path.{◌≡◌, refl, ap}
use mathlib.Core.Bool.{Bool, false, ◌||◌, true}
use mathlib.Core.List.{List, [], ◌∷◌, ◌++◌}
use mathlib.Core.Option
use mathlib.Core.Option.{Option, none, some}
use native.Mathlib.Omega.{arith}
use hivra_app.Prelude.Tests.{if◌then◌else◌, same, eq_of_same, Bool-cases}
use hivra_app.Prelude.Lists.{length}

module _ {ℓ} {A : Type ℓ} where
  unfoldable pub any : (A → Bool) → List A → Bool
  any p [] = false
  any p (x ∷ xs) = p x || any p xs

  unfoldable pub find : (A → Bool) → List A → Option A
  find p [] = none
  find p (x ∷ xs) = if p x then some x else find p xs

  unfoldable pub position : (A → Bool) → List A → Option ℕ
  position p [] = none
  position p (x ∷ xs) = if p x then some 0 else Option.map suc (position p xs)

  unfoldable pub retain : (A → Bool) → List A → List A
  retain p [] = []
  retain p (x ∷ xs) = if p x then x ∷ retain p xs else retain p xs

  -- `if !values.contains(&value) { values.push(value) }`
  unfoldable pub push_unique : Discrete A → List A → A → List A
  unfolding any
  push_unique dec xs a = if any (λ x. same dec x a) xs then xs else xs ++ (a ∷ [])

  pub position-lt-length :
      (p : A → Bool) (xs : List A) (i : ℕ) → position p xs ≡ some i → i < length xs
  unfolding position
  position-lt-length p [] i h = cc
  position-lt-length p (x ∷ xs) i h = ground (arith, position-lt-length p xs (i - 1))

  pub any-append : (p : A → Bool) (xs ys : List A) → any p (xs ++ ys) ≡ (any p xs || any p ys)
  unfolding any
  any-append p [] ys = refl
  any-append p (x ∷ xs) ys = ground (arith, any-append p xs ys)

  pub any-same_of_eq :
      (dec : Discrete A) (xs : List A) (a b : A)
      → same dec a b ≡ true
      → any (λ x. same dec x a) xs ≡ any (λ x. same dec x b) xs
  any-same_of_eq dec xs a b h =
      let e : a ≡ b = eq_of_same dec a b h in ap (λ c. any (λ x. same dec x c) xs) e

  -- A pushed value is there, and so is what was there before.
  pub any-same-push_unique :
      (dec : Discrete A) (xs : List A) (a b : A)
      → any (λ x. same dec x b) (push_unique dec xs a)
        ≡ (any (λ x. same dec x b) xs || same dec a b)
  unfolding push_unique
  any-same-push_unique dec xs a b = elim (Bool-cases (any (λ x. same dec x a) xs)) [
    | inl seen ↦ rw seen (ground (arith, any-same_of_eq dec xs a b))
    | inr new ↦ rw (new, any-append) (unfold any in ground arith)
  ]
