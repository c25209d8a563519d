-- ===== src/Slots/Projection.antt =====
-- `SlotLayout::from_ledger` and the queries on a layout (slot.rs).
use hivra_app.Prelude.{
  ℕ, suc, Bool, false, not, Option, none, some, List, [], ◌∷◌, ok, err, if◌then◌else◌, any,
  position, map, push_unique, same,
}
use hivra_app.Primitives.{
  Bytes, Bytes-discrete, bytes_eq, StarterId, SlotIndex, slot_index, StarterKind,
  StarterKind-discrete,
}
use hivra_app.Events.{Event, EventKind, starter_created, starter_burned}
use hivra_app.Payloads.{starter_created_from_bytes, starter_burned_from_bytes}
use hivra_app.Ledger.{Ledger}
use hivra_app.Slots.{
  SlotLayout, SlotEntry, empty_layout, starter_in, is_empty, holds, contains_id, contains_starter,
  occupy_first_free, free_starter, lock_starter, revoked_created_starter_ids, locked_starter_ids,
  starter_kind_for_id,
}
use mathlib.Core.Option
use mathlib.Core.List.{foldl}

-- The variables of the loop of `from_ledger`.
pub record Progress : Type 0 where
  pub layout : SlotLayout
  pub burned : List StarterId

unfoldable pub create_starter : List StarterId → Progress → StarterId → Progress
create_starter revoked p starter_id =
    if contains_id p.burned starter_id
    then p
    else if contains_id revoked starter_id
    then p
    else if contains_starter p.layout starter_id
    then p
    else record p { layout = occupy_first_free p.layout starter_id }

unfoldable pub burn_starter : Progress → StarterId → Progress
burn_starter p starter_id = record {
  layout = free_starter p.layout starter_id;
  burned = push_unique Bytes-discrete p.burned starter_id;
}

abbrev pub apply_kind : List StarterId → Progress → Event → EventKind → Progress
apply_kind revoked p event starter_created = elim (starter_created_from_bytes event.payload) [
  | err _ ↦ p
  | ok payload ↦ create_starter revoked p payload.starter_id
]
apply_kind revoked p event starter_burned = elim (starter_burned_from_bytes event.payload) [
  | err _ ↦ p
  | ok payload ↦ burn_starter p payload.starter_id
]
apply_kind revoked p event _ = p

unfoldable pub apply_event : Bytes → List StarterId → Progress → Event → Progress
apply_event owner revoked p event =
    if not (bytes_eq event.signer owner) then p else apply_kind revoked p event event.kind

unfoldable pub apply_events : Bytes → List StarterId → Progress → List Event → Progress
apply_events owner revoked p [] = p
apply_events owner revoked p (event ∷ events) =
    apply_events owner revoked (apply_event owner revoked p event) events

-- The layout before the locks, and with them.
unfoldable pub live_layout : Ledger → SlotLayout
live_layout ledger =
    (apply_events ledger.owner (revoked_created_starter_ids ledger)
      (record { layout = empty_layout; burned = [] }) ledger.events).layout

unfoldable pub from_ledger : Ledger → SlotLayout
from_ledger ledger = foldl lock_starter (live_layout ledger) (locked_starter_ids ledger)

unfoldable pub starter_ids : SlotLayout → List (Option StarterId)
starter_ids slots = map starter_in slots

-- `core::array::from_fn` over the slots, from an index on.
unfoldable pub entries_from : ℕ → SlotLayout → Ledger → List SlotEntry
entries_from index [] ledger = []
entries_from index (state ∷ slots) ledger =
    record {
      index = index;
      state = state;
      starter_kind = elim (starter_in state) [
        | none ↦ none
        | some id ↦ starter_kind_for_id ledger id
      ];
    }
    ∷ entries_from (suc index) slots ledger

unfoldable pub entries_with_kinds : SlotLayout → Ledger → List SlotEntry
entries_with_kinds slots ledger = entries_from 0 slots ledger

unfoldable pub find_first_empty : SlotLayout → Option SlotIndex
find_first_empty slots = Option.bind (position is_empty slots) slot_index

unfoldable pub find_by_starter : SlotLayout → StarterId → Option SlotIndex
find_by_starter slots starter_id = Option.bind (position (holds starter_id) slots) slot_index

abbrev pub kind_is : StarterKind → Option StarterKind → Bool
kind_is kind none = false
kind_is kind (some k) = same StarterKind-discrete k kind

unfoldable pub has_matching_starter : SlotLayout → Ledger → StarterKind → Bool
has_matching_starter slots ledger kind =
    any (λ entry. kind_is kind entry.starter_kind) (entries_with_kinds slots ledger)
