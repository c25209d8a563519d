-- ===== src/Invitations/View.antt =====
-- The views of the invitations for the outside (invitation.rs).
use hivra_app.Prelude.{
  ℕ, Bool, ◌&&◌, Option, none, some, List, if◌then◌else◌, length, find, retain, map,
}
use hivra_app.Primitives.{Bytes, bytes_eq, StarterKind, kind_to_byte}
use hivra_app.Payloads.{empty_slot, other}
use hivra_app.Ledger.{Ledger}
use hivra_app.Slots.{SlotLayout, starter_kind_for_id}
use hivra_app.Slots.Projection.{from_ledger, find_by_starter}
use hivra_app.Invitations.{
  InvitationStatus, pending, accepted, rejected, expired, InvitationDirection, incoming, status_eq,
  direction_eq, InvitationRecord,
}
use hivra_app.Invitations.Records.{invitations_with_status}
use mathlib.Core.Option
use Prim.Native.String.{String}

pub record InvitationCurrentItem : Type 0 where
  pub invitation_id : Bytes
  pub starter_id : Bytes
  pub direction : String
  pub from_pubkey : Bytes
  pub from_root_pubkey : Option Bytes
  pub from_card_signature : Option Bytes
  pub to_pubkey : Option Bytes
  pub starter_kind : Option ℕ
  pub starter_slot : Option ℕ
  pub status : String
  pub sent_at : ℕ
  pub responded_at : Option ℕ
  pub has_local_terminal : Bool
  pub rejection_reason : Option String

pub record InvitationCurrentView : Type 0 where
  pub schema : String
  pub version : ℕ
  pub ledger_version : ℕ
  pub invitations : List InvitationCurrentItem

unfoldable pub pending_invitations : Ledger → List InvitationRecord
pending_invitations ledger =
    retain (λ r. status_eq r.status pending) (invitations_with_status ledger)

unfoldable pub pending_invitation_count : Ledger → ℕ
pending_invitation_count ledger = length (pending_invitations ledger)

abbrev pub status_names : InvitationStatus → String × Option String
status_names pending = ("pending", none)
status_names (accepted _ _ _) = ("accepted", none)
status_names (rejected empty_slot) = ("rejected", some "empty_slot")
status_names (rejected other) = ("rejected", some "other")
status_names expired = ("expired", none)

unfoldable pub current_item : Ledger → SlotLayout → InvitationRecord → InvitationCurrentItem
current_item ledger slots r =
    let is_incoming = direction_eq r.direction incoming in
    let kind : Option StarterKind = elim r.starter_kind_hint [
      | some kind ↦ some kind
      | none ↦ starter_kind_for_id ledger r.starter_id
    ] in
    record {
      invitation_id = r.invitation_id;
      starter_id = r.starter_id;
      direction = if is_incoming then "incoming" else "outgoing";
      from_pubkey = if is_incoming then r.sender_transport_pubkey else r.offer_signer;
      from_root_pubkey = if is_incoming then r.sender_root_pubkey else none;
      from_card_signature = if is_incoming then r.sender_card_signature else none;
      to_pubkey = if is_incoming then none else some r.recipient_pubkey;
      starter_kind = Option.map kind_to_byte kind;
      starter_slot = if is_incoming then none else find_by_starter slots r.starter_id;
      status = (status_names r.status).0;
      sent_at = r.sent_at;
      responded_at = r.responded_at;
      has_local_terminal = r.has_local_terminal;
      rejection_reason = (status_names r.status).1;
    }

unfoldable pub invitation_current_view_v1 : Ledger → InvitationCurrentView
invitation_current_view_v1 ledger = record {
  schema = "hivra.invitation_current_view";
  version = 1;
  ledger_version = length ledger.events;
  invitations = map (current_item ledger (from_ledger ledger)) (invitations_with_status ledger);
}

unfoldable pub find_invitation : Ledger → Bytes → Option InvitationRecord
find_invitation ledger invitation_id =
    find (λ r. bytes_eq r.invitation_id invitation_id) (invitations_with_status ledger)

unfoldable pub find_invitation_by_direction :
    Ledger → Bytes → InvitationDirection → Option InvitationRecord
find_invitation_by_direction ledger invitation_id direction =
    find (λ r. bytes_eq r.invitation_id invitation_id && direction_eq r.direction direction)
      (invitations_with_status ledger)

unfoldable pub invitation_status : Ledger → Bytes → InvitationStatus
invitation_status ledger invitation_id =
    Option.get_or (Option.map (λ r. r.status) (find_invitation ledger invitation_id)) pending
