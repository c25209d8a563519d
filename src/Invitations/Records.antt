-- ===== src/Invitations/Records.antt =====
-- The loop of `invitations_with_status` (invitation.rs).
use hivra_app.Prelude.{
  Bool, true, false, not, ◌&&◌, ◌||◌, none, some, List, [], ◌∷◌, ◌++◌, ok, err, if◌then◌else◌, any,
}
use hivra_app.Primitives.{Bytes, bytes_eq, PubKey}
use hivra_app.Events.{
  Event, EventKind, event_kind_eq, invitation_sent, invitation_accepted, invitation_rejected,
  invitation_expired, invitation_received,
}
use hivra_app.Payloads.{InvitationSent, invitation_sent_from_bytes}
use hivra_app.Ledger.{Ledger}
use mathlib.Core.Option
use hivra_app.Invitations.{
  InvitationStatus, pending, expired, InvitationDirection, outgoing, incoming, status_eq,
  direction_eq, InvitationRecord, invitation_starter_kind_hint, invitation_sender_transport,
  invitation_sender_card_signature, terminal_status, is_accepted, is_answer,
}

abbrev pub signer_of_direction : InvitationDirection → PubKey → PubKey → PubKey
signer_of_direction outgoing owner offer_signer = owner
signer_of_direction incoming owner offer_signer = offer_signer

unfoldable pub valid_expiry_signer : PubKey → InvitationRecord → PubKey → Bool
valid_expiry_signer owner record_ signer =
    bytes_eq signer (signer_of_direction record_.direction owner record_.offer_signer)

-- The offer of an event, as the loop stores it.
unfoldable pub offer_record : Event → InvitationSent → InvitationRecord
offer_record event payload =
    let direction = if event_kind_eq event.kind invitation_received then incoming else outgoing in
    record {
      invitation_id = payload.invitation_id;
      starter_id = payload.starter_id;
      starter_kind_hint = invitation_starter_kind_hint event.payload;
      peer_pubkey =
          if direction_eq direction incoming
          then Option.get_or (invitation_sender_transport event.payload) event.signer
          else payload.to_pubkey;
      direction = direction;
      offer_signer = event.signer;
      sender_root_pubkey = payload.sender_root_pubkey;
      sender_transport_pubkey =
          Option.get_or (invitation_sender_transport event.payload) event.signer;
      sender_card_signature = invitation_sender_card_signature event.payload;
      recipient_pubkey = payload.to_pubkey;
      sent_at = event.timestamp;
      responded_at = none;
      responded_signer = none;
      has_local_terminal = false;
      status = pending;
    }

-- Whether the owner has ended the invitation on this side.
unfoldable pub is_local_terminal : PubKey → Event → InvitationRecord → InvitationStatus → Bool
is_local_terminal owner event r terminal =
    bytes_eq event.signer owner
    && ((direction_eq r.direction incoming && is_answer terminal)
        || (direction_eq r.direction outgoing && status_eq terminal expired))

abbrev pub answered : InvitationRecord → Event → InvitationStatus → InvitationRecord
answered r event terminal = record r {
  status = terminal;
  responded_at = some event.timestamp;
  responded_signer = some event.signer;
}

-- What a terminal event does to the record of its invitation.
unfoldable pub apply_terminal :
    PubKey → Event → InvitationStatus → InvitationRecord → InvitationRecord
apply_terminal owner event terminal r =
    if status_eq terminal expired && not (valid_expiry_signer owner r event.signer)
    then r
    else let marked =
        if is_local_terminal owner event r terminal
        then record r { has_local_terminal = true }
        else r in
      if status_eq marked.status pending
      then answered marked event terminal
      else if direction_eq marked.direction incoming
          && (is_accepted marked.status && status_eq terminal expired)
      then answered marked event expired
      else marked

-- `iter_mut().find(..)` and the change of what it finds.
unfoldable pub update_first :
    Bytes → (InvitationRecord → InvitationRecord) → List InvitationRecord → List InvitationRecord
update_first id f [] = []
update_first id f (r ∷ records) =
    if bytes_eq r.invitation_id id then f r ∷ records else r ∷ update_first id f records

unfoldable pub add_offer : List InvitationRecord → Event → List InvitationRecord
add_offer records event = elim (invitation_sent_from_bytes event.payload) [
  | err _ ↦ records
  | ok payload ↦
      if any (λ r. bytes_eq r.invitation_id payload.invitation_id) records
      then records
      else records ++ (offer_record event payload ∷ [])
]

unfoldable pub end_invitation :
    PubKey → List InvitationRecord → Event → EventKind → List InvitationRecord
end_invitation owner records event kind = elim (terminal_status kind event.payload) [
  | none ↦ records
  | some (id, terminal) ↦ update_first id (apply_terminal owner event terminal) records
]

-- One round of the loop of `invitations_with_status`.
abbrev pub record_kind : PubKey → List InvitationRecord → Event → EventKind → List InvitationRecord
record_kind owner records event invitation_sent = add_offer records event
record_kind owner records event invitation_received = add_offer records event
record_kind owner records event invitation_accepted =
    end_invitation owner records event invitation_accepted
record_kind owner records event invitation_rejected =
    end_invitation owner records event invitation_rejected
record_kind owner records event invitation_expired =
    end_invitation owner records event invitation_expired
record_kind owner records event _ = records

unfoldable pub record_event : PubKey → List InvitationRecord → Event → List InvitationRecord
record_event owner records event = record_kind owner records event event.kind

unfoldable pub record_events : PubKey → List InvitationRecord → List Event → List InvitationRecord
record_events owner records [] = records
record_events owner records (event ∷ events) =
    record_events owner (record_event owner records event) events

unfoldable pub invitations_with_status : Ledger → List InvitationRecord
invitations_with_status ledger = record_events ledger.owner [] ledger.events
