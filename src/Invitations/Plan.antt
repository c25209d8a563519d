-- ===== src/Invitations/Plan.antt =====
-- What the plan of an acceptance promises.
use hivra_app.Prelude.{
  ℕ, zero, suc, ◌≤◌, ◌≡◌, refl, ap, ◌∙◌, sym, ◌⊎◌, inl, inr, Bool, true, false, not, ◌||◌, Option,
  none, some, List, [], ◌∷◌, arith, Bool-cases, Option-cases, get_or, get_elem?, find, position,
  any, length, position-lt-length, subst,
}
use hivra_app.Primitives.{
  StarterId, StarterKind, juice, spark, seed, pulse, kick, kind_to_byte, SlotIndex, slot_index,
  option_eq,
}
use hivra_app.Ledger.{Ledger}
use hivra_app.Slots.{
  SlotLayout, SlotEntry, SlotState, empty, starter_in, is_empty, starter_kind_for_id, occupied,
  locked,
}
use hivra_app.Slots.Projection.{entries_from, entries_with_kinds, find_first_empty, kind_is}
use hivra_app.Invitations.Accept.{
  AcceptPlan, PlannedStarterCreation, use_existing_starter, create_starter_in_empty_slot,
  no_capacity, mark_kind, active_starter_kinds, first_missing_kind, matching_starter_id,
  plan_accept_for_kind, planned_creation, choose_plan,
}
use mathlib.Core.Option
use mathlib.Core.List.{foldl}

-- Whether a slot's starter has the kind.
abbrev pub has_kind : Ledger → StarterKind → SlotState → Bool
has_kind ledger kind state = elim (starter_in state) [
  | none ↦ false
  | some id ↦ kind_is kind (starter_kind_for_id ledger id)
]

matching-some :
    (ledger : Ledger) (kind : StarterKind) (i : ℕ) (slots : SlotLayout) (id : StarterId)
    → matching_starter_id (entries_from i slots ledger) kind ≡ some id
    → (any (λ state. option_eq (starter_in state) (some id)) slots ≡ true)
      × (kind_is kind (starter_kind_for_id ledger id) ≡ true)
unfolding matching_starter_id find entries_from any
matching-some ledger kind i [] id h = ground arith
matching-some ledger kind i (empty ∷ slots) id h =
    ground (arith, matching-some ledger kind (suc i) slots id)
matching-some ledger kind i (occupied x ∷ slots) id h =
    ground (arith, matching-some ledger kind (suc i) slots id)
matching-some ledger kind i (locked x ∷ slots) id h =
    ground (arith, matching-some ledger kind (suc i) slots id)

matching-none :
    (ledger : Ledger) (kind : StarterKind) (i : ℕ) (slots : SlotLayout)
    → matching_starter_id (entries_from i slots ledger) kind ≡ none
    → any (has_kind ledger kind) slots ≡ false
unfolding matching_starter_id find entries_from any
matching-none ledger kind i [] h = refl
matching-none ledger kind i (empty ∷ slots) h =
    ground (arith, matching-none ledger kind (suc i) slots)
matching-none ledger kind i (occupied x ∷ slots) h =
    ground (arith, matching-none ledger kind (suc i) slots)
matching-none ledger kind i (locked x ∷ slots) h =
    ground (arith, matching-none ledger kind (suc i) slots)

position-none : (p : SlotState → Bool) (xs : SlotLayout) → position p xs ≡ none → any p xs ≡ false
unfolding any position
position-none p [] k = refl
position-none p (x ∷ xs) k = ground (arith, position-none p xs)

find_first_empty-none :
    (slots : SlotLayout)
    → length slots ≤ 5
    → find_first_empty slots ≡ none
    → any is_empty slots ≡ false
unfolding find_first_empty slot_index Option.bind
find_first_empty-none slots h e = elim (Option-cases (position is_empty slots)) [
  | inl nowhere ↦ position-none is_empty slots nowhere
  | inr (i, found) ↦ ground (arith, position-lt-length is_empty slots i found)
]

position-at :
    (p : SlotState → Bool) (xs : SlotLayout) (i : ℕ)
    → position p xs ≡ some i
    → (state : SlotState) × (get_elem? xs i ≡ some state) × (p state ≡ true)
unfolding position
position-at p [] i e = ground arith
position-at p (x ∷ xs) zero e = (x, refl, ground arith)
position-at p (x ∷ xs) (suc i) e = position-at p xs i (ground arith)

is_empty_lem : (state : SlotState) → is_empty state ≡ true → state ≡ empty
is_empty_lem empty h = refl
is_empty_lem (occupied _) h = ground arith
is_empty_lem (locked _) h = ground arith

find_first_empty-some :
    (slots : SlotLayout) (i : SlotIndex)
    → find_first_empty slots ≡ some i
    → get_elem? slots i ≡ some empty
unfolding find_first_empty slot_index Option.bind
find_first_empty-some slots i e =
    let (state, at, free) = position-at is_empty slots i (ground arith) in
    at ∙ ap some (is_empty_lem state free)

mark-get :
    (kinds : List Bool) (entry : SlotEntry) (kind : StarterKind)
    → length kinds ≡ 5
    → (length (mark_kind kinds entry) ≡ 5)
      × (get_or (mark_kind kinds entry) (kind_to_byte kind) false
          ≡ (get_or kinds (kind_to_byte kind) false || kind_is kind entry.starter_kind))
unfolding kind_to_byte mark_kind
mark-get (a ∷ b ∷ c ∷ d ∷ e ∷ []) entry kind h = ground arith
mark-get [] entry kind h = absurd (omega arith)
mark-get (a ∷ []) entry kind h = absurd (omega arith)
mark-get (a ∷ b ∷ []) entry kind h = absurd (omega arith)
mark-get (a ∷ b ∷ c ∷ []) entry kind h = absurd (omega arith)
mark-get (a ∷ b ∷ c ∷ d ∷ []) entry kind h = absurd (omega arith)
mark-get (a ∷ b ∷ c ∷ d ∷ e ∷ f ∷ more) entry kind h = absurd (omega arith)

fold-get :
    (ledger : Ledger) (kind : StarterKind) (i : ℕ) (slots : SlotLayout) (kinds : List Bool)
    → length kinds ≡ 5
    → get_or (foldl mark_kind kinds (entries_from i slots ledger)) (kind_to_byte kind) false
      ≡ (get_or kinds (kind_to_byte kind) false || any (has_kind ledger kind) slots)
unfolding entries_from any
fold-get ledger kind i [] kinds h = ground arith
fold-get ledger kind i (state ∷ slots) kinds h =
    let (long, marked) = mark-get kinds (entry state) kind h in
    fold-get ledger kind (suc i) slots (mark_kind kinds (entry state)) long
    ∙ join state _ _ _ marked
  where
    entry : SlotState → SlotEntry
    entry state = record {
      index = i;
      state = state;
      starter_kind = elim (starter_in state) [
        | none ↦ none
        | some id ↦ starter_kind_for_id ledger id
      ];
    }

    join :
        (state : SlotState) (a b c : Bool)
        → a ≡ (b || kind_is kind (entry state).starter_kind)
        → (a || c) ≡ (b || (has_kind ledger kind state || c))
    join empty a b c e = ground arith
    join (occupied _) a b c e = ground arith
    join (locked _) a b c e = ground arith

active-get :
    (ledger : Ledger) (slots : SlotLayout) (kind : StarterKind)
    → get_or (active_starter_kinds slots ledger) (kind_to_byte kind) false
      ≡ any (has_kind ledger kind) slots
unfolding active_starter_kinds entries_with_kinds kind_to_byte
active-get ledger slots kind =
    fold-get ledger kind 0 slots (false ∷ false ∷ false ∷ false ∷ false ∷ []) refl ∙ (ground arith)

find-some :
    (p : StarterKind → Bool) (xs : List StarterKind) (x : StarterKind)
    → find p xs ≡ some x
    → p x ≡ true
unfolding find
find-some p [] x e = ground arith
find-some p (y ∷ xs) x e = elim (Bool-cases (p y)) [
  | inl hit ↦ ground (arith, ap p (some_injective hit))
  | inr miss ↦ find-some p xs x (ground arith)
]
  where
    some_injective : p y ≡ true → y ≡ x
    some_injective hit = ground arith

missing-absent :
    (ledger : Ledger) (slots : SlotLayout) (kind : StarterKind)
    → first_missing_kind (active_starter_kinds slots ledger) ≡ some kind
    → any (has_kind ledger kind) slots ≡ false
unfolding first_missing_kind
missing-absent ledger slots kind e =
    sym (active-get ledger slots kind)
    ∙ not_true (
        find-some (λ k. not (get_or (active_starter_kinds slots ledger) (kind_to_byte k) false)) _
          kind e)
  where
    not_true : {b : Bool} → not b ≡ true → b ≡ false
    not_true e = ground arith

missing-none :
    (ledger : Ledger) (slots : SlotLayout) (kind : StarterKind)
    → first_missing_kind (active_starter_kinds slots ledger) ≡ none
    → any (has_kind ledger kind) slots ≡ true
unfolding first_missing_kind find
missing-none ledger slots kind e = sym (active-get ledger slots kind) ∙ all_there kind
  where
    all_there :
        (kind : StarterKind)
        → get_or (active_starter_kinds slots ledger) (kind_to_byte kind) false ≡ true
    all_there juice = ground arith
    all_there spark = ground arith
    all_there seed = ground arith
    all_there pulse = ground arith
    all_there kick = ground arith

-- The slot is empty and no slot holds a starter of the kind.
abbrev pub IsCreation : Ledger → SlotLayout → SlotIndex → StarterKind → Type 0
IsCreation ledger slots slot kind =
    (get_elem? slots slot ≡ some empty) × (any (has_kind ledger kind) slots ≡ false)

abbrev pub IsBeside : Ledger → SlotLayout → Option PlannedStarterCreation → Type 0
IsBeside ledger slots none =
    (any is_empty slots ≡ false) ⊎ ((kind : StarterKind) → any (has_kind ledger kind) slots ≡ true)
IsBeside ledger slots (some p) = IsCreation ledger slots p.slot p.kind

-- What a plan means for a kind.
abbrev pub IsPlan : Ledger → SlotLayout → StarterKind → AcceptPlan → Type 0
IsPlan ledger slots kind (use_existing_starter id created) =
    (any (λ state. option_eq (starter_in state) (some id)) slots ≡ true)
    × (kind_is kind (starter_kind_for_id ledger id) ≡ true)
    × IsBeside ledger slots created
IsPlan ledger slots kind (create_starter_in_empty_slot slot k) =
    (k ≡ kind) × IsCreation ledger slots slot kind
IsPlan ledger slots kind no_capacity =
    (any is_empty slots ≡ false) × (any (has_kind ledger kind) slots ≡ false)

beside :
    (ledger : Ledger) (slots : SlotLayout)
    → length slots ≤ 5
    → IsBeside ledger slots (
        planned_creation
          (find_first_empty slots)
          (first_missing_kind (active_starter_kinds slots ledger)))
beside ledger slots h = elim (Option-cases (find_first_empty slots)) [
  | inl full ↦ rw full (inl (find_first_empty-none slots h full))
  | inr (slot, free) ↦
      elim (Option-cases (first_missing_kind (active_starter_kinds slots ledger))) [
        | inl all ↦ rw (free, all) (inr (λ kind. missing-none ledger slots kind all))
        | inr (kind, missing) ↦
            rw (free, missing)
              (find_first_empty-some slots slot free, missing-absent ledger slots kind missing)
      ]
]

-- For a layout of at most five slots: an existing starter is used only if a slot holds it and it
-- has the kind, and a starter created beside it takes an empty slot and a kind that no slot has,
-- with none created only if no slot is empty or every kind is there; a starter of the kind is
-- created only in an empty slot and if no slot has the kind; and there is no capacity only if no
-- slot is empty and none has the kind.
pub plan_accept_for_kind-IsPlan :
    (ledger : Ledger) (slots : SlotLayout) (kind : StarterKind)
    → length slots ≤ 5
    → IsPlan ledger slots kind (plan_accept_for_kind ledger slots kind)
unfolding plan_accept_for_kind entries_with_kinds
plan_accept_for_kind-IsPlan ledger slots kind h =
    chosen (matching_starter_id (entries_from 0 slots ledger) kind) (find_first_empty slots) refl
      refl
  where
    chosen :
        (match : Option StarterId) (free : Option SlotIndex)
        → matching_starter_id (entries_from 0 slots ledger) kind ≡ match
        → find_first_empty slots ≡ free
        → IsPlan ledger slots kind
            (choose_plan match free (first_missing_kind (active_starter_kinds slots ledger)) kind)
    chosen (some id) free matched found =
        let (held, right) = matching-some ledger kind 0 slots id matched in
        (
          held,
          right,
          subst
              (λ o.
                IsBeside ledger slots
                  (planned_creation o (first_missing_kind (active_starter_kinds slots ledger))))
              found (beside ledger slots h),
        )
    chosen none (some slot) matched found =
        (refl, (find_first_empty-some slots slot found, matching-none ledger kind 0 slots matched))
    chosen none none matched found =
        (find_first_empty-none slots h found, matching-none ledger kind 0 slots matched)
