-- ===== src/Slots.antt =====
-- core/hivra-core/src/slot.rs: the five starter slots as a projection of the ledger.
--
-- `[T; 5]` is a list, and the loops over the events are folds that return the state after each
-- event. A slot index is at most 4 where it comes from `position` in such a list.
pub mod Projection
pub mod Layouts
pub mod Effects
pub mod Revoked
pub mod Content
pub mod Offered
pub mod Locks
mod Examples
use hivra_app.Prelude.{
  ℕ, ◌≡◌, Bool, true, false, not, ◌&&◌, ◌||◌, Option, none, some, List, [], ◌∷◌, ◌++◌, Result, ok,
  err, if◌then◌else◌, leb, ◌==◌, length, take, set, any, find, position, retain, push_unique, map,
  reverse, same,
}
use hivra_app.Primitives.{
  Bytes, Bytes-discrete, bytes_eq, StarterId, SlotIndex, slot_index, StarterKind,
  StarterKind-discrete,
}
use hivra_app.Events.{
  Event, EventKind, event_kind_eq, invitation_sent, invitation_accepted, invitation_rejected,
  invitation_expired, invitation_received, starter_created, starter_burned,
}
use hivra_app.Payloads.{
  InvitationSent, invitation_sent_from_bytes, InvitationAccepted, invitation_accepted_from_bytes,
  invitation_rejected_from_bytes, invitation_expired_from_bytes, starter_created_from_bytes,
  starter_burned_from_bytes,
}
use hivra_app.Ledger.{Ledger}
use mathlib.Core.Option
use mathlib.Core.List.{foldl}

pub data SlotState : Type 0 where
  empty : SlotState
  occupied locked : StarterId → SlotState

abbrev pub SlotLayout : Type 0
SlotLayout = List SlotState

pub record SlotEntry : Type 0 where
  pub index : SlotIndex
  pub state : SlotState
  pub starter_kind : Option StarterKind

abbrev pub empty_layout : SlotLayout
empty_layout = empty ∷ empty ∷ empty ∷ empty ∷ empty ∷ []

-- The starter in a slot, locked or not.
abbrev pub starter_in : SlotState → Option StarterId
starter_in empty = none
starter_in (occupied id) = some id
starter_in (locked id) = some id

abbrev pub is_empty : SlotState → Bool
is_empty empty = true
is_empty (occupied _) = false
is_empty (locked _) = false

abbrev pub holds : StarterId → SlotState → Bool
holds starter_id empty = false
holds starter_id (occupied id) = bytes_eq id starter_id
holds starter_id (locked id) = bytes_eq id starter_id

abbrev pub holds_unlocked : StarterId → SlotState → Bool
holds_unlocked starter_id empty = false
holds_unlocked starter_id (occupied id) = bytes_eq id starter_id
holds_unlocked starter_id (locked _) = false

-- `if let Some(idx) = self.slots.iter().position(..) { self.slots[idx] = state }`
unfoldable pub set_where : (SlotState → Bool) → SlotState → SlotLayout → SlotLayout
set_where p state slots = elim (position p slots) [ none ↦ slots | some idx ↦ set slots idx state ]

unfoldable pub occupy_first_free : SlotLayout → StarterId → SlotLayout
occupy_first_free slots starter_id = set_where is_empty (occupied starter_id) slots

unfoldable pub free_starter : SlotLayout → StarterId → SlotLayout
free_starter slots starter_id = set_where (holds starter_id) empty slots

unfoldable pub lock_starter : SlotLayout → StarterId → SlotLayout
lock_starter slots starter_id = set_where (holds_unlocked starter_id) (locked starter_id) slots

unfoldable pub contains_starter : SlotLayout → StarterId → Bool
contains_starter slots starter_id = any (holds starter_id) slots

-- `values.iter().any(|value| *value == id)`
abbrev pub contains_id : List Bytes → Bytes → Bool
contains_id values id = any (λ value. bytes_eq value id) values

-- `offer_event.payload().get(..32).is_some_and(|id| id == ..)`
abbrev pub prefix_is : Bytes → Bytes → Bool
prefix_is id payload = leb 32 (length payload) && bytes_eq (take 32 payload) id

-- Whether the signer of an expiry also signed a received offer of that invitation.
unfoldable pub sender_signed_offer_exists : List Event → Event → Bytes → Bool
sender_signed_offer_exists events expiry invitation_id =
    any
      (λ offer.
        event_kind_eq offer.kind invitation_received
        && (bytes_eq offer.signer expiry.signer && prefix_is invitation_id offer.payload))
      events

-- The first loop of `revoked_created_starter_ids`, over the events still to come.
unfoldable pub expired_ids : List Event → List Bytes → List Event → List Bytes
expired_ids all ids [] = ids
expired_ids all ids (event ∷ events) =
    expired_ids all
      (if not (event_kind_eq event.kind invitation_expired)
        then ids
        else elim (invitation_expired_from_bytes event.payload) [
          | err _ ↦ ids
          | ok payload ↦
              if sender_signed_offer_exists all event payload.invitation_id
              then push_unique Bytes-discrete ids payload.invitation_id
              else ids
        ])
      events

-- The second loop.
unfoldable pub revoked_ids : List Bytes → List StarterId → List Event → List StarterId
revoked_ids expired ids [] = ids
revoked_ids expired ids (event ∷ events) =
    revoked_ids expired
      (if not (event_kind_eq event.kind invitation_accepted)
        then ids
        else elim (invitation_accepted_from_bytes event.payload) [
          | err _ ↦ ids
          | ok payload ↦
              if contains_id expired payload.invitation_id
              then push_unique Bytes-discrete ids payload.created_starter_id
              else ids
        ])
      events

unfoldable pub revoked_created_starter_ids : Ledger → List StarterId
revoked_created_starter_ids ledger =
    revoked_ids (expired_ids ledger.events [] ledger.events) [] ledger.events

-- The first event of the list that creates the starter.
unfoldable pub created_kind : Bytes → StarterId → List Event → Option StarterKind
created_kind owner starter_id [] = none
created_kind owner starter_id (event ∷ events) =
    let rest = created_kind owner starter_id events in
    if not (bytes_eq event.signer owner)
    then rest
    else if not (event_kind_eq event.kind starter_created)
    then rest
    else elim (starter_created_from_bytes event.payload) [
      | err _ ↦ rest
      | ok payload ↦ if bytes_eq payload.starter_id starter_id then some payload.kind else rest
    ]

-- The latest creation counts.
unfoldable pub starter_kind_for_id : Ledger → StarterId → Option StarterKind
starter_kind_for_id ledger starter_id = created_kind ledger.owner starter_id (reverse ledger.events)

abbrev pub Pending : Type 0
Pending = List (Bytes × StarterId)

unfoldable pub clear_pending : Pending → Bytes → Pending
clear_pending pending invitation_id = retain (λ p. not (bytes_eq p.0 invitation_id)) pending

-- One round of the loop of `locked_starter_ids`, by the kind of the event.
abbrev pub pending_step : Bytes → Pending → Event → EventKind → Pending
pending_step owner pending event invitation_sent =
    if not (bytes_eq event.signer owner)
    then pending
    else elim (invitation_sent_from_bytes event.payload) [
      | err _ ↦ pending
      | ok payload ↦ pending ++ ((payload.invitation_id, payload.starter_id) ∷ [])
    ]
pending_step owner pending event invitation_accepted =
    elim (invitation_accepted_from_bytes event.payload) [
      | err _ ↦ pending
      | ok payload ↦ clear_pending pending payload.invitation_id
    ]
pending_step owner pending event invitation_rejected =
    elim (invitation_rejected_from_bytes event.payload) [
      | err _ ↦ pending
      | ok payload ↦ clear_pending pending payload.invitation_id
    ]
pending_step owner pending event invitation_expired =
    elim (invitation_expired_from_bytes event.payload) [
      | err _ ↦ pending
      | ok payload ↦ clear_pending pending payload.invitation_id
    ]
pending_step owner pending event _ = pending

unfoldable pub pending_after : Bytes → Pending → List Event → Pending
pending_after owner pending [] = pending
pending_after owner pending (event ∷ events) =
    pending_after owner (pending_step owner pending event event.kind) events

-- The last loop: the first five different starters; the array's unused cells are left out.
unfoldable pub first_five : List StarterId → Pending → List StarterId
first_five ids [] = ids
first_five ids ((_, starter_id) ∷ pending) =
    let rest = first_five ids pending in
    let more = first_five (ids ++ (starter_id ∷ [])) pending in
    if contains_id ids starter_id then rest else if leb 5 (length ids) then ids else more

unfoldable pub locked_starter_ids : Ledger → List StarterId
locked_starter_ids ledger = first_five [] (pending_after ledger.owner [] ledger.events)
