-- ===== src/Prelude/Tests.antt =====
-- Boolean tests on the native numbers and on types with a decidable equality, and the
-- conditional.
use Prim.Native.Nat.{ℕ, compare, Ordering}
use mathlib.Core.Path.{◌≡◌, refl}
use mathlib.Core.Logic.{◌⊎◌, inl, inr}
use mathlib.Core.Bool.{Bool, true, false}
use mathlib.Core.Option.{Option, none, some}
use native.Mathlib.Omega.{arith}

abbrev pub ltb : ℕ → ℕ → Bool
ltb a b = elim (compare a b) [ Ordering.lt ↦ true | _ ↦ false ]

abbrev pub leb : ℕ → ℕ → Bool
leb a b = elim (compare a b) [ Ordering.gt ↦ false | _ ↦ true ]

infix 50 ◌==◌
abbrev pub ◌==◌ : ℕ → ℕ → Bool
a == b = elim (compare a b) [ Ordering.eq ↦ true | _ ↦ false ]

infix 1 if◌then◌else◌
abbrev pub if◌then◌else◌ {ℓ} : {A : Type ℓ} → Bool → A → A → A
if true then x else y = x
if false then x else y = y

-- The equality that Rust derives, from a decision.
abbrev pub same {ℓ} : {A : Type ℓ} → Discrete A → A → A → Bool
same dec a b = elim (dec a b) [ yes _ ↦ true | no _ ↦ false ]

pub same_refl {ℓ} : {A : Type ℓ} (dec : Discrete A) (a : A) → same dec a a ≡ true
same_refl dec a = ground arith

pub eq_of_same {ℓ} : {A : Type ℓ} (dec : Discrete A) (a b : A) → same dec a b ≡ true → a ≡ b
eq_of_same dec a b h = ground arith

-- To split on a computed value and keep the equation.
pub Bool-cases : (b : Bool) → (b ≡ true) ⊎ (b ≡ false)
Bool-cases true = inl refl
Bool-cases false = inr refl

pub Option-cases {ℓ} : {A : Type ℓ} (o : Option A) → (o ≡ none) ⊎ ((a : A) × (o ≡ some a))
Option-cases none = inl refl
Option-cases (some a) = inr (a, refl)
