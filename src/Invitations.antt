-- ===== src/Invitations.antt =====
-- core/hivra-core/src/invitation.rs: the invitations of a ledger with their status, and the plan
-- for accepting one.
--
-- A slice out of range panics in Rust; each one here stands behind a test of the length.
pub mod Records
pub mod View
pub mod Accept
pub mod Follow
pub mod Status
pub mod Unique
pub mod Plan
mod Examples
use hivra_app.Prelude.{
  ℕ, Bool, true, false, not, ◌&&◌, ◌||◌, Option, none, some, List, [], ◌∷◌, ◌++◌, Result, ok, err,
  to_option, ok_or, if◌then◌else◌, leb, ◌==◌, length, take, drop, get_or, any, find, retain, map,
  same, ℕ_discrete,
}
use hivra_app.Primitives.{
  Bytes, bytes_eq, PubKey, StarterId, Timestamp, StarterKind, kind_from_u8, kind_to_byte, SlotIndex,
}
use hivra_app.Events.{
  Event, EventKind, event_kind_eq, invitation_sent, invitation_accepted, invitation_rejected,
  invitation_expired, invitation_received,
}
use hivra_app.Payloads.{
  RejectReason, empty_slot, other, InvitationSent, invitation_sent_from_bytes,
  invitation_accepted_from_bytes, invitation_rejected_from_bytes, invitation_expired_from_bytes,
}
use hivra_app.Ledger.{Ledger}
use mathlib.Core.Option

pub data InvitationStatus : Type 0 where
  pending : InvitationStatus
  accepted :
      (created_starter_id : StarterId) (from_pubkey : PubKey) (accepter_root_pubkey : Option PubKey)
      → InvitationStatus
  rejected : (reason : RejectReason) → InvitationStatus
  expired : InvitationStatus

pub data InvitationDirection : Type 0 where
  outgoing incoming : InvitationDirection

unfoldable pub InvitationStatus-discrete : Discrete InvitationStatus
unfolding ℕ_discrete
InvitationStatus-discrete = hlevel ℕ_discrete

unfoldable pub InvitationDirection-discrete : Discrete InvitationDirection
InvitationDirection-discrete = hlevel

abbrev pub status_eq : InvitationStatus → InvitationStatus → Bool
status_eq = same InvitationStatus-discrete

abbrev pub direction_eq : InvitationDirection → InvitationDirection → Bool
direction_eq = same InvitationDirection-discrete

pub record InvitationRecord : Type 0 where
  pub invitation_id : Bytes
  pub starter_id : StarterId
  pub starter_kind_hint : Option StarterKind
  pub peer_pubkey : PubKey
  pub direction : InvitationDirection
  pub offer_signer : PubKey
  pub sender_root_pubkey : Option PubKey
  pub sender_transport_pubkey : PubKey
  pub sender_card_signature : Option Bytes
  pub recipient_pubkey : PubKey
  pub sent_at : Timestamp
  pub responded_at : Option Timestamp
  pub responded_signer : Option PubKey
  pub has_local_terminal : Bool
  pub status : InvitationStatus

unfoldable pub invitation_starter_kind_hint : Bytes → Option StarterKind
invitation_starter_kind_hint bytes =
    if length bytes == 97
    then kind_from_u8 (get_or bytes 96 0)
    else if length bytes == 129 || (length bytes == 161 || length bytes == 225)
    then kind_from_u8 (get_or bytes 128 0)
    else none

unfoldable pub invitation_sender_transport : Bytes → Option PubKey
invitation_sender_transport bytes =
    if leb 161 (length bytes) then some (take 32 (drop 129 bytes)) else none

unfoldable pub invitation_sender_card_signature : Bytes → Option Bytes
invitation_sender_card_signature bytes =
    if length bytes == 225 then some (take 64 (drop 161 bytes)) else none

-- `Some(..)` for the three kinds that end an invitation, if the payload parses.
abbrev pub terminal_status : EventKind → Bytes → Option (Bytes × InvitationStatus)
terminal_status invitation_accepted bytes = elim (invitation_accepted_from_bytes bytes) [
  | err _ ↦ none
  | ok p ↦
      some (p.invitation_id, accepted p.created_starter_id p.from_pubkey p.accepter_root_pubkey)
]
terminal_status invitation_rejected bytes = elim (invitation_rejected_from_bytes bytes) [
  | err _ ↦ none
  | ok p ↦ some (p.invitation_id, rejected p.reason)
]
terminal_status invitation_expired bytes = elim (invitation_expired_from_bytes bytes) [
  | err _ ↦ none
  | ok p ↦ some (p.invitation_id, expired)
]
terminal_status _ bytes = none

abbrev pub is_accepted : InvitationStatus → Bool
is_accepted pending = false
is_accepted (accepted _ _ _) = true
is_accepted (rejected _) = false
is_accepted expired = false

abbrev pub is_answer : InvitationStatus → Bool
is_answer pending = false
is_answer (accepted _ _ _) = true
is_answer (rejected _) = true
is_answer expired = false
