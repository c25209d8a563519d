-- ===== src/Quarantine/Counting.antt =====
-- Counts and sums over the records of the quarantine, and what its list operations do to them.
use hivra_app.Prelude.{
  ℕ, zero, suc, ◌+◌, ◌≤◌, ◌≡◌, refl, Bool, none, List, [], ◌∷◌, ◌++◌, arith, All, length, find,
  retain, sort_by, insert_by, ◌<◌,
}
use hivra_app.Primitives.{Bytes}
use hivra_app.Quarantine.{QuarantineRecord}
use hivra_app.Quarantine.Policies.{update_at, remove_at}
use hivra_app.Quarantine.Records.{update_record, ciphertext_bytes}

module _ {A : Type 0} (p : A → Bool) where
  abbrev pub tally : List A → ℕ
  tally xs = length (retain p xs)

  pub tally-length : (xs : List A) → tally xs ≤ length xs
  unfolding retain
  tally-length [] = omega arith
  tally-length (x ∷ xs) = ground (arith, tally-length xs)

  pub tally-append : (xs ys : List A) → tally (xs ++ ys) ≡ tally xs + tally ys
  unfolding retain
  tally-append [] ys = omega arith
  tally-append (x ∷ xs) ys = ground (arith, tally-append xs ys)

  tally-insert_by :
      (le : A → A → Bool) (a : A) (xs : List A) → tally (insert_by le a xs) ≡ tally (a ∷ xs)
  unfolding retain insert_by
  tally-insert_by le a [] = refl
  tally-insert_by le a (x ∷ xs) = ground (arith, tally-insert_by le a xs)

  pub tally-sort_by : (le : A → A → Bool) (xs : List A) → tally (sort_by le xs) ≡ tally xs
  unfolding retain sort_by
  tally-sort_by le [] = refl
  tally-sort_by le (x ∷ xs) =
      ground (arith, tally-insert_by le x (sort_by le xs), tally-sort_by le xs)

  pub tally-retain : (q : A → Bool) (xs : List A) → tally (retain q xs) ≤ tally xs
  unfolding retain
  tally-retain q [] = omega arith
  tally-retain q (x ∷ xs) = ground (arith, tally-retain q xs)

  pub tally_unfound : (xs : List A) → find p xs ≡ none → tally xs ≡ 0
  unfolding retain find
  tally_unfound [] h = refl
  tally_unfound (x ∷ xs) h = ground (arith, tally_unfound xs)

module _ (f : QuarantineRecord → QuarantineRecord) (id : Bytes) where
  pub tally-update_record :
      (p : QuarantineRecord → Bool) (xs : List QuarantineRecord)
      → ((r : QuarantineRecord) → p (f r) ≡ p r)
      → tally p (update_record id f xs) ≡ tally p xs
  unfolding retain update_record
  tally-update_record p [] h = refl
  tally-update_record p (x ∷ xs) h = ground (arith, h x, tally-update_record p xs h)

  pub length-update_record :
      (xs : List QuarantineRecord) → length (update_record id f xs) ≡ length xs
  unfolding update_record
  length-update_record [] = refl
  length-update_record (x ∷ xs) = ground (arith, length-update_record xs)

  pub ciphertext_bytes-update_record :
      (xs : List QuarantineRecord)
      → ((r : QuarantineRecord) → (f r).envelope_ciphertext ≡ r.envelope_ciphertext)
      → ciphertext_bytes (update_record id f xs) ≡ ciphertext_bytes xs
  unfolding update_record
  ciphertext_bytes-update_record [] h = refl
  ciphertext_bytes-update_record (x ∷ xs) h =
      ground (arith, h x, ciphertext_bytes-update_record xs h)

pub ciphertext_bytes-append :
    (xs ys : List QuarantineRecord)
    → ciphertext_bytes (xs ++ ys) ≡ ciphertext_bytes xs + ciphertext_bytes ys
ciphertext_bytes-append [] ys = omega arith
ciphertext_bytes-append (x ∷ xs) ys = omega (arith, ciphertext_bytes-append xs ys)

ciphertext_bytes-insert_by :
    (le : QuarantineRecord → QuarantineRecord → Bool) (a : QuarantineRecord)
    (xs : List QuarantineRecord)
    → ciphertext_bytes (insert_by le a xs) ≡ ciphertext_bytes (a ∷ xs)
unfolding insert_by
ciphertext_bytes-insert_by le a [] = refl
ciphertext_bytes-insert_by le a (x ∷ xs) = ground (arith, ciphertext_bytes-insert_by le a xs)

pub ciphertext_bytes-sort_by :
    (le : QuarantineRecord → QuarantineRecord → Bool) (xs : List QuarantineRecord)
    → ciphertext_bytes (sort_by le xs) ≡ ciphertext_bytes xs
unfolding sort_by
ciphertext_bytes-sort_by le [] = refl
ciphertext_bytes-sort_by le (x ∷ xs) =
    omega (arith, ciphertext_bytes-insert_by le x (sort_by le xs), ciphertext_bytes-sort_by le xs)

pub ciphertext_bytes-retain :
    (q : QuarantineRecord → Bool) (xs : List QuarantineRecord)
    → ciphertext_bytes (retain q xs) ≤ ciphertext_bytes xs
unfolding retain
ciphertext_bytes-retain q [] = omega arith
ciphertext_bytes-retain q (x ∷ xs) = ground (arith, ciphertext_bytes-retain q xs)

module _ {A : Type 0} where
  pub length-update_at : (f : A → A) (i : ℕ) (xs : List A) → length (update_at f i xs) ≡ length xs
  length-update_at f i [] = refl
  length-update_at f zero (x ∷ xs) = refl
  length-update_at f (suc i) (x ∷ xs) = omega (arith, length-update_at f i xs)

  pub All-update_at :
      (P : A → Type 0) (f : A → A) (i : ℕ) (xs : List A)
      → ((x : A) → P x → P (f x))
      → All P xs
      → All P (update_at f i xs)
  All-update_at P f i [] h k = tt
  All-update_at P f zero (x ∷ xs) h (now, later) = (h x now, later)
  All-update_at P f (suc i) (x ∷ xs) h (now, later) = (now, All-update_at P f i xs h later)

  pub All-remove_at : (P : A → Type 0) (i : ℕ) (xs : List A) → All P xs → All P (remove_at i xs)
  All-remove_at P i [] k = tt
  All-remove_at P zero (x ∷ xs) (now, later) = later
  All-remove_at P (suc i) (x ∷ xs) (now, later) = (now, All-remove_at P i xs later)

  pub length-remove_at :
      (i : ℕ) (xs : List A) → i < length xs → length (remove_at i xs) + 1 ≡ length xs
  length-remove_at i [] h = absurd (omega arith)
  length-remove_at zero (x ∷ xs) h = omega arith
  length-remove_at (suc i) (x ∷ xs) h = omega (arith, length-remove_at i xs (omega arith))
