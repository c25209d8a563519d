-- ===== src/Deliveries/Terminals.antt =====
-- invitation_support.rs: the answers and revocations of the capsule, for the peers to whom they go.
use hivra_app.Prelude.{
  Bool, ◌&&◌, none, some, List, [], ◌∷◌, if◌then◌else◌, take, map, sort_by, bytes_le,
}
use mathlib.Core.Option
use hivra_app.Primitives.{Bytes, bytes_eq, PubKey, Timestamp}
use hivra_app.Events.{
  Event, EventKind, event_kind_eq, event_kind_byte, invitation_sent, invitation_received,
  invitation_accepted, invitation_rejected, invitation_expired,
}
use hivra_app.Payloads.{read_fixed_32}
use hivra_app.Deliveries.{
  Runtime, invitation_payload_has_known_shape, invitation_payload_sender_transport,
  invitation_id_from_terminal_payload,
}
use hivra_app.Deliveries.Pending.{insert_key, get_key, number_then, bytes_then}

pub record PendingOutgoingInvitationTerminalDelivery : Type 0 where
  pub to_pubkey : Bytes
  pub kind : EventKind
  pub payload : Bytes
  pub timestamp : Timestamp
  pub invitation_id : Bytes

-- The variables of the loop over the events.
pub record TerminalState : Type 0 where
  pub incoming_offers : List (Bytes × PubKey)
  pub outgoing_offers : List (Bytes × PubKey)
  pub pending : List ((Bytes × EventKind) × PendingOutgoingInvitationTerminalDelivery)

abbrev pub answer_key_eq : Bytes × EventKind → Bytes × EventKind → Bool
answer_key_eq a b = bytes_eq a.0 b.0 && event_kind_eq a.1 b.1

abbrev pub terminal_delivery : Event → Bytes → PubKey → PendingOutgoingInvitationTerminalDelivery
terminal_delivery event invitation_id to_pubkey = record {
  to_pubkey = to_pubkey;
  kind = event.kind;
  payload = event.payload;
  timestamp = event.timestamp;
  invitation_id = invitation_id;
}

-- The capsule's own answer, if the offer that it answers is known.
abbrev pub put_terminal : Event → List (Bytes × PubKey) → TerminalState → TerminalState
put_terminal event offers state =
    elim (invitation_id_from_terminal_payload event.kind event.payload) [
      | none ↦ state
      | some invitation_id ↦ elim (get_key bytes_eq invitation_id offers) [
        | none ↦ state
        | some to_pubkey ↦ record state {
          pending =
              insert_key answer_key_eq (invitation_id, event.kind)
                (terminal_delivery event invitation_id to_pubkey) state.pending;
        }
      ]
    ]

-- One round of the loop over the events, by the kind of the event.
abbrev pub terminal_step : PubKey → Event → TerminalState → EventKind → TerminalState
terminal_step root event state invitation_sent =
    if bytes_eq event.signer root && invitation_payload_has_known_shape event.payload
    then record state {
      outgoing_offers =
          insert_key bytes_eq (take 32 event.payload) (read_fixed_32 event.payload 64)
            state.outgoing_offers;
    }
    else state
terminal_step root event state invitation_received =
    if invitation_payload_has_known_shape event.payload
    then record state {
      incoming_offers =
          insert_key bytes_eq (take 32 event.payload)
            (Option.get_or (invitation_payload_sender_transport event.payload) event.signer)
            state.incoming_offers;
    }
    else state
terminal_step root event state invitation_accepted =
    if bytes_eq event.signer root then put_terminal event state.incoming_offers state else state
terminal_step root event state invitation_rejected =
    if bytes_eq event.signer root then put_terminal event state.incoming_offers state else state
terminal_step root event state invitation_expired =
    if bytes_eq event.signer root then put_terminal event state.outgoing_offers state else state
terminal_step root event state _ = state

unfoldable pub terminal_loop : PubKey → TerminalState → List Event → TerminalState
terminal_loop root state [] = state
terminal_loop root state (event ∷ events) =
    terminal_loop root (terminal_step root event state event.kind) events

abbrev pub terminal_le :
    PendingOutgoingInvitationTerminalDelivery → PendingOutgoingInvitationTerminalDelivery → Bool
terminal_le a b = number_then a.timestamp b.timestamp (
    bytes_then a.to_pubkey b.to_pubkey (
      number_then (event_kind_byte a.kind) (event_kind_byte b.kind)
        (bytes_le a.invitation_id b.invitation_id)))

unfoldable pub pending_outgoing_invitation_terminal_deliveries_in_runtime :
    Runtime → List PendingOutgoingInvitationTerminalDelivery
pending_outgoing_invitation_terminal_deliveries_in_runtime none = []
pending_outgoing_invitation_terminal_deliveries_in_runtime (some capsule) =
    let start : TerminalState = record {
      incoming_offers = [];
      outgoing_offers = [];
      pending = [];
    } in
    sort_by terminal_le
      (map (λ e. e.1) (terminal_loop capsule.pubkey start capsule.ledger.events).pending)
