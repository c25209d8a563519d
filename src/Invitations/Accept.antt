-- ===== src/Invitations/Accept.antt =====
-- `plan_accept_for_kind`: which starter an acceptance uses or creates (invitation.rs).
use hivra_app.Prelude.{Bool, true, false, not, Option, none, some, List, [], ◌∷◌, get_or, set, find}
use hivra_app.Primitives.{
  StarterId, StarterKind, juice, spark, seed, pulse, kick, kind_to_byte, SlotIndex,
}
use hivra_app.Ledger.{Ledger}
use hivra_app.Slots.{SlotLayout, SlotEntry, starter_in}
use hivra_app.Slots.Projection.{entries_with_kinds, find_first_empty, kind_is}
use mathlib.Core.List.{foldl}

pub record PlannedStarterCreation : Type 0 where
  pub slot : SlotIndex
  pub kind : StarterKind

pub data AcceptPlan : Type 0 where
  use_existing_starter :
      (relationship_starter_id : StarterId) (created_starter : Option PlannedStarterCreation)
      → AcceptPlan
  create_starter_in_empty_slot : (slot : SlotIndex) (kind : StarterKind) → AcceptPlan
  no_capacity : AcceptPlan

unfoldable pub mark_kind : List Bool → SlotEntry → List Bool
mark_kind kinds entry = elim entry.starter_kind [
  | none ↦ kinds
  | some kind ↦ set kinds (kind_to_byte kind) true
]

unfoldable pub active_starter_kinds : SlotLayout → Ledger → List Bool
active_starter_kinds slots ledger =
    foldl mark_kind (false ∷ false ∷ false ∷ false ∷ false ∷ []) (entries_with_kinds slots ledger)

unfoldable pub first_missing_kind : List Bool → Option StarterKind
first_missing_kind active_kinds =
    find (λ kind. not (get_or active_kinds (kind_to_byte kind) false))
      (juice ∷ spark ∷ seed ∷ pulse ∷ kick ∷ [])

-- `find_map` on the entries, then the starter of the state it finds.
unfoldable pub matching_starter_id : List SlotEntry → StarterKind → Option StarterId
matching_starter_id entries kind = elim (find (λ entry. kind_is kind entry.starter_kind) entries) [
  | none ↦ none
  | some entry ↦ starter_in entry.state
]

-- The starter that is created beside the one in use.
abbrev pub planned_creation : Option SlotIndex → Option StarterKind → Option PlannedStarterCreation
planned_creation (some slot) (some kind) = some (record { slot = slot; kind = kind })
planned_creation _ _ = none

-- The choice, from the matching starter, the first empty slot and the first missing kind.
abbrev pub choose_plan :
    Option StarterId → Option SlotIndex → Option StarterKind → StarterKind → AcceptPlan
choose_plan (some relationship_starter_id) slot missing kind =
    use_existing_starter relationship_starter_id (planned_creation slot missing)
choose_plan none (some slot) missing kind = create_starter_in_empty_slot slot kind
choose_plan none none missing kind = no_capacity

unfoldable pub plan_accept_for_kind : Ledger → SlotLayout → StarterKind → AcceptPlan
plan_accept_for_kind ledger slots kind =
    choose_plan (matching_starter_id (entries_with_kinds slots ledger) kind)
      (find_first_empty slots) (first_missing_kind (active_starter_kinds slots ledger)) kind
