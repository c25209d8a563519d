-- ===== src/Slots/Layouts.antt =====
-- The operations on a layout: what each does to the starters that it holds.
use hivra_app.Prelude.{
  ◌≡◌, ◌≢◌, ◌⊎◌, inl, inr, refl, Bool, false, not, ◌&&◌, ◌||◌, none, some, [], ◌∷◌, arith,
  if◌then◌else◌, length, any, position, All, Pairwise, Bool-cases, ◌∙◌, All-mono,
}
use hivra_app.Primitives.{bytes_eq, StarterId}
use hivra_app.Slots.{
  SlotState, empty, occupied, locked, SlotLayout, starter_in, is_empty, holds, holds_unlocked,
  set_where, occupy_first_free, free_starter, lock_starter, contains_starter,
}

-- `set_where` one slot at a time.
pub set_where_nil : (p : SlotState → Bool) (t : SlotState) → set_where p t [] ≡ []
unfolding set_where position
set_where_nil p t = refl

pub set_where_cons :
    (p : SlotState → Bool) (t s : SlotState) (slots : SlotLayout)
    → set_where p t (s ∷ slots) ≡ (if p s then t ∷ slots else s ∷ set_where p t slots)
unfolding set_where position
set_where_cons p t s slots = ground arith

ruleset set_where_rules = (set_where_nil, set_where_cons)

-- Two slots never hold the same starter.
abbrev pub Different : SlotState → SlotState → Type 0
Different s t = (starter_in s ≡ none) ⊎ (starter_in s ≢ starter_in t)

-- Five slots, with different starters.
pub record IsLayout (slots : SlotLayout) : Type 0 where
  pub five : length slots ≡ 5
  pub distinct : Pairwise Different slots

length-set_where :
    (p : SlotState → Bool) (t : SlotState) (slots : SlotLayout)
    → length (set_where p t slots) ≡ length slots
length-set_where p t [] = rw set_where_nil
length-set_where p t (s ∷ slots) = rw set_where_cons (ground (arith, length-set_where p t slots))

-- A starter that one slot holds is in no slot that differs from it.
Different-absent :
    (id : StarterId) (s : SlotState) (slots : SlotLayout)
    → starter_in s ≡ some id
    → All (Different s) slots
    → any (holds id) slots ≡ false
unfolding any
Different-absent id s [] e h = refl
Different-absent id s (t ∷ slots) e h = ground (arith, Different-absent id s slots e)

-- What a layout holds after each operation.
module _ (id : StarterId) where
  pub contains-occupy :
      (slots : SlotLayout) (x : StarterId)
      → contains_starter (occupy_first_free slots x) id
        ≡ (contains_starter slots id || (any is_empty slots && bytes_eq x id))
  unfolding contains_starter any occupy_first_free
  contains-occupy [] x = rw set_where_nil
  contains-occupy (s ∷ slots) x = rw set_where_cons (ground (arith, contains-occupy slots x))

  pub contains-lock :
      (slots : SlotLayout) (x : StarterId)
      → contains_starter (lock_starter slots x) id ≡ contains_starter slots id
  unfolding contains_starter any lock_starter
  contains-lock [] x = rw set_where_nil
  contains-lock (s ∷ slots) x = rw set_where_cons (ground (arith, contains-lock slots x))

  pub contains-free :
      (slots : SlotLayout) (x : StarterId)
      → Pairwise Different slots
      → contains_starter (free_starter slots x) id
        ≡ (contains_starter slots id && not (bytes_eq x id))
  unfolding contains_starter any free_starter
  contains-free [] x h = rw set_where_nil
  contains-free (s ∷ slots) x h =
      rw set_where_cons (ground (arith, contains-free slots x h.1, Different-absent id s slots))

All-set_where :
    (P : SlotState → Type 0) (p : SlotState → Bool) (t : SlotState) (slots : SlotLayout)
    → P t
    → All P slots
    → All P (set_where p t slots)
All-set_where P p t [] ht h = rw set_where_nil tt
All-set_where P p t (s ∷ slots) ht h = rw set_where_cons (elim (Bool-cases (p s)) [
  | inl e ↦ rw e (ht, h.1)
  | inr e ↦ rw e (h.0, All-set_where P p t slots ht h.1)
])

-- Where no slot holds the starter, a slot with it differs from all.
absent-Different :
    (x : StarterId) (t : SlotState) (slots : SlotLayout)
    → starter_in t ≡ some x
    → contains_starter slots x ≡ false
    → All (Different t) slots
unfolding contains_starter any
absent-Different x t [] e h = tt
absent-Different x t (s ∷ slots) e h = (ground arith, absent-Different x t slots e (ground arith))

occupy-distinct :
    (slots : SlotLayout) (x : StarterId)
    → contains_starter slots x ≡ false
    → Pairwise Different slots
    → Pairwise Different (occupy_first_free slots x)
unfolding occupy_first_free
occupy-distinct [] x n h = rw set_where_nil tt
occupy-distinct (s ∷ slots) x n h = rw set_where_cons (elim (Bool-cases (is_empty s)) [
  | inl e ↦ rw e (absent-Different x (occupied x) slots refl rest_absent, h.1)
  | inr e ↦ rw e (
    All-set_where (Different s) is_empty (occupied x) slots head_differs h.0,
    occupy-distinct slots x rest_absent h.1,
  )
])
  where
    rest_absent : contains_starter slots x ≡ false
    rest_absent = unfold contains_starter any in ground (arith, n)

    head_differs : Different s (occupied x)
    head_differs = unfold contains_starter any in ground (arith, n)

free-distinct :
    (slots : SlotLayout) (x : StarterId)
    → Pairwise Different slots
    → Pairwise Different (free_starter slots x)
unfolding free_starter
free-distinct [] x h = rw set_where_nil tt
free-distinct (s ∷ slots) x h = rw set_where_cons (elim (Bool-cases (holds x s)) [
  | inl e ↦ rw e (empty_differs slots, h.1)
  | inr e ↦ rw e (
    All-set_where (Different s) (holds x) empty slots (ground arith) h.0,
    free-distinct slots x h.1,
  )
])
  where
    empty_differs : (rest : SlotLayout) → All (Different empty) rest
    empty_differs [] = tt
    empty_differs (t ∷ rest) = (inl refl, empty_differs rest)

lock-Different :
    (s : SlotState) (slots : SlotLayout) (x : StarterId)
    → All (Different s) slots
    → All (Different s) (set_where (holds_unlocked x) (locked x) slots)
lock-Different s [] x h = rw set_where_nil tt
lock-Different s (t ∷ slots) x h = rw set_where_cons (elim (Bool-cases (holds_unlocked x t)) [
  | inl e ↦ rw e (ground arith, h.1)
  | inr e ↦ rw e (h.0, lock-Different s slots x h.1)
])

lock-distinct :
    (slots : SlotLayout) (x : StarterId)
    → Pairwise Different slots
    → Pairwise Different (lock_starter slots x)
unfolding lock_starter
lock-distinct [] x h = rw set_where_nil tt
lock-distinct (s ∷ slots) x h = rw set_where_cons (elim (Bool-cases (holds_unlocked x s)) [
  | inl e ↦
      rw e (All-mono (Different s) (Different (locked x)) slots (λ t d. ground arith) h.0, h.1)
  | inr e ↦ rw e (lock-Different s slots x h.0, lock-distinct slots x h.1)
])

pub occupy-IsLayout :
    (slots : SlotLayout) (x : StarterId)
    → contains_starter slots x ≡ false
    → IsLayout slots
    → IsLayout (occupy_first_free slots x)
unfolding occupy_first_free
occupy-IsLayout slots x n h = record {
  five = length-set_where is_empty (occupied x) slots ∙ h.five;
  distinct = occupy-distinct slots x n h.distinct;
}

pub free-IsLayout :
    (slots : SlotLayout) (x : StarterId) → IsLayout slots → IsLayout (free_starter slots x)
unfolding free_starter
free-IsLayout slots x h = record {
  five = length-set_where (holds x) empty slots ∙ h.five;
  distinct = free-distinct slots x h.distinct;
}

pub lock-IsLayout :
    (slots : SlotLayout) (x : StarterId) → IsLayout slots → IsLayout (lock_starter slots x)
unfolding lock_starter
lock-IsLayout slots x h = record {
  five = length-set_where (holds_unlocked x) (locked x) slots ∙ h.five;
  distinct = lock-distinct slots x h.distinct;
}
