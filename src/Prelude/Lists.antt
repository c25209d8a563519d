-- ===== src/Prelude/Lists.antt =====
-- Lists measured and indexed by native numbers, under the library's names.
use Prim.Native.Nat.{ℕ, zero, suc, ◌+◌, ◌-◌, ◌≤◌, ◌<◌}
use mathlib.Core.Path.{◌≡◌, refl, ap, subst}
use mathlib.Core.List.{List, [], ◌∷◌, ◌++◌, foldl}
use mathlib.Core.Option.{Option, none, some}
use native.Mathlib.Omega.{arith}

module _ {ℓ} {A : Type ℓ} where
  abbrev pub length : List A → ℕ
  length [] = 0
  length (x ∷ xs) = suc (length xs)

  abbrev pub get_elem? : List A → ℕ → Option A
  get_elem? [] i = none
  get_elem? (x ∷ xs) zero = some x
  get_elem? (x ∷ xs) (suc i) = get_elem? xs i

  abbrev pub get_or : List A → ℕ → A → A
  get_or [] i d = d
  get_or (x ∷ xs) zero d = x
  get_or (x ∷ xs) (suc i) d = get_or xs i d

  -- A write out of bounds changes nothing.
  abbrev pub set : List A → ℕ → A → List A
  set [] i v = []
  set (x ∷ xs) zero v = v ∷ xs
  set (x ∷ xs) (suc i) v = x ∷ set xs i v

  abbrev pub take : ℕ → List A → List A
  take zero xs = []
  take (suc n) [] = []
  take (suc n) (x ∷ xs) = x ∷ take n xs

  abbrev pub drop : ℕ → List A → List A
  drop zero xs = xs
  drop (suc n) [] = []
  drop (suc n) (x ∷ xs) = drop n xs

  abbrev pub replicate : ℕ → A → List A
  replicate zero a = []
  replicate (suc n) a = a ∷ replicate n a

  pub length-append : (xs ys : List A) → length (xs ++ ys) ≡ length xs + length ys
  length-append [] ys = omega arith
  length-append (x ∷ xs) ys = omega (arith, length-append xs ys)

  pub length-set : (xs : List A) (i : ℕ) (v : A) → length (set xs i v) ≡ length xs
  length-set [] i v = refl
  length-set (x ∷ xs) zero v = refl
  length-set (x ∷ xs) (suc i) v = ap suc (length-set xs i v)

  pub take-append_length : (xs ys : List A) → take (length xs) (xs ++ ys) ≡ xs
  take-append_length [] ys = refl
  take-append_length (x ∷ xs) ys = ap (◌∷◌ x) (take-append_length xs ys)

  pub drop-append_length : (xs ys : List A) → drop (length xs) (xs ++ ys) ≡ ys
  drop-append_length [] ys = refl
  drop-append_length (x ∷ xs) ys = drop-append_length xs ys

  pub take-append-drop : (n : ℕ) (xs : List A) → take n xs ++ drop n xs ≡ xs
  take-append-drop zero xs = refl
  take-append-drop (suc n) [] = refl
  take-append-drop (suc n) (x ∷ xs) = ap (◌∷◌ x) (take-append-drop n xs)

  pub length-drop : (n : ℕ) (xs : List A) → length (drop n xs) ≡ length xs - n
  length-drop zero xs = omega arith
  length-drop (suc n) [] = omega arith
  length-drop (suc n) (x ∷ xs) = omega (arith, length-drop n xs)

  pub length-take_of_le : (n : ℕ) (xs : List A) → n ≤ length xs → length (take n xs) ≡ n
  length-take_of_le zero xs h = refl
  length-take_of_le (suc n) [] h = absurd (omega arith)
  length-take_of_le (suc n) (x ∷ xs) h = omega (arith, length-take_of_le n xs (omega arith))

  abbrev pub get_last? : List A → Option A
  get_last? [] = none
  get_last? (x ∷ []) = some x
  get_last? (x ∷ y ∷ xs) = get_last? (y ∷ xs)

  pub get_last?-append : (xs : List A) (x : A) → get_last? (xs ++ (x ∷ [])) ≡ some x
  get_last?-append [] x = refl
  get_last?-append (y ∷ []) x = refl
  get_last?-append (y ∷ z ∷ xs) x = get_last?-append (z ∷ xs) x

  -- A predicate on every element, and a relation on every pair in order.
  abbrev pub All {κ} : (A → Type κ) → List A → Type κ
  All P [] = Unit
  All P (x ∷ xs) = P x × All P xs

  abbrev pub Pairwise {κ} : (A → A → Type κ) → List A → Type κ
  Pairwise R [] = Unit
  Pairwise R (x ∷ xs) = All (R x) xs × Pairwise R xs

  pub take_all : (n : ℕ) (xs : List A) → length xs ≤ n → take n xs ≡ xs
  take_all zero [] h = refl
  take_all zero (x ∷ xs) h = absurd (omega arith)
  take_all (suc n) [] h = refl
  take_all (suc n) (x ∷ xs) h = ap (◌∷◌ x) (take_all n xs (omega arith))

  -- What is appended past a prefix does not show in it.
  pub take-append_of_le : (n : ℕ) (xs ys : List A) → n ≤ length xs → take n (xs ++ ys) ≡ take n xs
  take-append_of_le zero xs ys h = refl
  take-append_of_le (suc n) [] ys h = absurd (omega arith)
  take-append_of_le (suc n) (x ∷ xs) ys h = ap (◌∷◌ x) (take-append_of_le n xs ys (omega arith))

  pub drop-append_of_le :
      (n : ℕ) (xs ys : List A) → n ≤ length xs → drop n (xs ++ ys) ≡ drop n xs ++ ys
  drop-append_of_le zero xs ys h = refl
  drop-append_of_le (suc n) [] ys h = absurd (omega arith)
  drop-append_of_le (suc n) (x ∷ xs) ys h = drop-append_of_le n xs ys (omega arith)

module _ {ℓ κ} {A : Type ℓ} {B : Type κ} where
  abbrev pub zip : List A → List B → List (A × B)
  zip [] ys = []
  zip (x ∷ xs) [] = []
  zip (x ∷ xs) (y ∷ ys) = (x, y) ∷ zip xs ys

  pub zip-append :
      (xs : List A) (ys : List B) (x : A) (y : B)
      → length xs ≡ length ys
      → zip (xs ++ (x ∷ [])) (ys ++ (y ∷ [])) ≡ zip xs ys ++ ((x, y) ∷ [])
  zip-append [] [] x y h = refl
  zip-append [] (b ∷ ys) x y h = absurd (omega arith)
  zip-append (a ∷ xs) [] x y h = absurd (omega arith)
  zip-append (a ∷ xs) (b ∷ ys) x y h = ap (◌∷◌ (a, b)) (zip-append xs ys x y (omega arith))

module _ {ℓ κ} {A : Type ℓ} (P : A → Type κ) where
  pub All-append : (xs ys : List A) → All P xs → All P ys → All P (xs ++ ys)
  All-append [] ys hx hy = hy
  All-append (x ∷ xs) ys hx hy = (hx.0, All-append xs ys hx.1 hy)

  pub All-append_parts : (xs ys : List A) → All P (xs ++ ys) → All P xs × All P ys
  All-append_parts [] ys h = (tt, h)
  All-append_parts (x ∷ xs) ys h =
      let (front, back) = All-append_parts xs ys h.1 in ((h.0, front), back)

  pub All-take : (n : ℕ) (xs : List A) → All P xs → All P (take n xs)
  All-take zero xs h = tt
  All-take (suc n) [] h = tt
  All-take (suc n) (x ∷ xs) h = (h.0, All-take n xs h.1)

module _ {ℓ κ ι} {A : Type ℓ} (P : A → Type κ) (Q : A → Type ι) where
  pub All-mono : (xs : List A) → ((x : A) → P x → Q x) → All P xs → All Q xs
  All-mono [] f h = tt
  All-mono (x ∷ xs) f h = (f x h.0, All-mono xs f h.1)

  pub All-both : (xs : List A) → All P xs → All Q xs → All (λ x. P x × Q x) xs
  All-both [] hp hq = tt
  All-both (x ∷ xs) hp hq = ((hp.0, hq.0), All-both xs hp.1 hq.1)

  pub All-first : (xs : List A) → All (λ x. P x × Q x) xs → All P xs
  All-first [] h = tt
  All-first (x ∷ xs) h = (h.0.0, All-first xs h.1)

  pub All-second : (xs : List A) → All (λ x. P x × Q x) xs → All Q xs
  All-second [] h = tt
  All-second (x ∷ xs) h = (h.0.1, All-second xs h.1)

module _ {ℓ κ} {A : Type ℓ} (P : A → Type κ) where
  pub All-get_last? : (xs : List A) (x : A) → All P xs → get_last? xs ≡ some x → P x
  All-get_last? [] x h e = cc
  All-get_last? (y ∷ []) x h e = (let p : y ≡ x = cc in subst P p h.0)
  All-get_last? (y ∷ z ∷ xs) x h e = All-get_last? (z ∷ xs) x h.1 e

module _ {ℓ κ} {A : Type ℓ} (R : A → A → Type κ) where
  pub Pairwise-append_one :
      (xs : List A) (x : A) → Pairwise R xs → All (λ y. R y x) xs → Pairwise R (xs ++ (x ∷ []))
  Pairwise-append_one [] x h k = (tt, tt)
  Pairwise-append_one (y ∷ xs) x h k =
      (All-append (R y) xs (x ∷ []) h.0 (k.0, tt), Pairwise-append_one xs x h.1 k.1)

  pub Pairwise-append_one_parts :
      (xs : List A) (x : A) → Pairwise R (xs ++ (x ∷ [])) → Pairwise R xs × All (λ y. R y x) xs
  Pairwise-append_one_parts [] x h = (tt, tt)
  Pairwise-append_one_parts (y ∷ xs) x h =
      let (front, back) = All-append_parts (R y) xs (x ∷ []) h.0 in
      let (rest, lasts) = Pairwise-append_one_parts xs x h.1 in ((front, rest), (back.0, lasts))

pub foldl-append_one {ℓ κ} :
    {A : Type ℓ} {B : Type κ} (f : B → A → B) (b : B) (xs : List A) (x : A)
    → foldl f b (xs ++ (x ∷ [])) ≡ f (foldl f b xs) x
foldl-append_one f b [] x = refl
foldl-append_one f b (y ∷ xs) x = foldl-append_one f (f b y) xs x

module _ {ℓ} {A : Type ℓ} where
  pub get_last?-drop : (n : ℕ) (xs : List A) → n < length xs → get_last? (drop n xs) ≡ get_last? xs
  get_last?-drop zero xs h = refl
  get_last?-drop (suc n) [] h = absurd (omega arith)
  get_last?-drop (suc n) (x ∷ []) h = absurd (omega arith)
  get_last?-drop (suc n) (x ∷ y ∷ xs) h = get_last?-drop n (y ∷ xs) (omega arith)

pub append-cancel {ℓ} :
    {A : Type ℓ} (a b r s : List A) → length a ≡ length b → a ++ r ≡ b ++ s → (a ≡ b) × (r ≡ s)
append-cancel [] [] r s h e = (refl, e)
append-cancel [] (y ∷ b) r s h e = absurd (omega arith)
append-cancel (x ∷ a) [] r s h e = absurd (omega arith)
append-cancel (x ∷ a) (y ∷ b) r s h e = ground (arith, append-cancel a b r s)
