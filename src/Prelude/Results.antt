-- ===== src/Prelude/Results.antt =====
-- Rust's `Result`, with the error first so that a chain of steps keeps it.
use mathlib.Core.Option.{Option, none, some}

pub data Result {ℓ κ} (E : Type ℓ) (A : Type κ) : Type (ℓ ⊔ κ) where
  ok : A → Result E A
  err : E → Result E A

module _ {ℓ κ} {E : Type ℓ} {A : Type κ} where
  -- `.ok()`
  abbrev pub to_option : Result E A → Option A
  to_option (ok a) = some a
  to_option (err _) = none

  -- `.ok_or(e)`
  abbrev pub ok_or : Option A → E → Result E A
  ok_or (some a) e = ok a
  ok_or none e = err e

-- The `?` operator.
infixl 5 ◌>>=◌ ◌>>◌
abbrev pub ◌>>=◌ {ℓ κ ι} :
    {E : Type ℓ} {A : Type κ} {B : Type ι} → Result E A → (A → Result E B) → Result E B
ok a >>= f = f a
err e >>= f = err e

abbrev pub ◌>>◌ {ℓ κ} : {E : Type ℓ} {B : Type κ} → Result E (Unit {0}) → Result E B → Result E B
m >> k = m >>= λ _. k
