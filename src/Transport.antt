-- ===== src/Transport.antt =====
-- adapters/hivra-transport/src/lib.rs: envelopes, the guard on received ones, and the manager.
--
-- Strings are their UTF-8 bytes. A transport is a record of what its methods answer to one call.
pub mod Fallback
mod Examples
use hivra_app.Prelude.{
  ℕ, Bool, true, false, not, Option, none, some, List, [], ◌∷◌, ◌++◌, Result, ok, err, ltb, ◌==◌,
  if◌then◌else◌, length, map, retain, ◌>>=◌, ◌>>◌,
}
use hivra_app.Primitives.{Bytes, bytes_eq}

abbrev pub delivery_envelope_schema_version : ℕ
delivery_envelope_schema_version = 1

abbrev pub max_delivery_envelope_payload_bytes : ℕ
max_delivery_envelope_payload_bytes = 262144

pub data TransportError : Type 0 where
  not_implemented connection_failed send_failed receive_failed invalid_message : TransportError
  encoding_failed decoding_failed invalid_key sender_mismatch timeout : TransportError
  other_error : Bytes → TransportError

pub data InboundEnvelopeRejection : Type 0 where
  unsupported_schema_version wrong_recipient payload_too_large : InboundEnvelopeRejection

pub record DomainEventProof : Type 0 where
  pub version : ℕ
  pub kind : ℕ
  pub signer : Bytes
  pub signature : Bytes

pub record DeliveryEnvelope : Type 0 where
  pub schema_version : ℕ
  pub from : Bytes
  pub to : Bytes
  pub kind : ℕ
  pub payload : Bytes
  pub timestamp : ℕ
  pub correlation_id : Option Bytes
  pub domain_event : Option DomainEventProof

pub record InboundEnvelopeGuard : Type 0 where
  pub expected_recipient : Bytes
  pub max_payload_bytes : ℕ

unfoldable pub for_recipient : Bytes → InboundEnvelopeGuard
for_recipient expected_recipient = record {
  expected_recipient = expected_recipient;
  max_payload_bytes = max_delivery_envelope_payload_bytes;
}

unfoldable pub with_max_payload_bytes : InboundEnvelopeGuard → ℕ → InboundEnvelopeGuard
with_max_payload_bytes guard max_payload_bytes = record guard {
  max_payload_bytes = max_payload_bytes;
}

unfoldable pub validate :
    InboundEnvelopeGuard → DeliveryEnvelope → Result InboundEnvelopeRejection (Unit {0})
validate guard envelope =
    if not (envelope.schema_version == delivery_envelope_schema_version)
    then err unsupported_schema_version
    else if not (bytes_eq envelope.to guard.expected_recipient)
    then err wrong_recipient
    else if ltb guard.max_payload_bytes (length envelope.payload)
    then err payload_too_large
    else ok tt

pub data InboundDeliveryPayload : Type 0 where
  envelope_item : DeliveryEnvelope → InboundDeliveryPayload
  adapter_rejected_with : (reason : Bytes) → InboundDeliveryPayload

pub record InboundDeliveryItem : Type 0 where
  pub event_id : Bytes
  pub observed_by : List Bytes
  pub payload : InboundDeliveryPayload

pub record InboundDeliveryBatch : Type 0 where
  pub batch_id : ℕ
  pub items : List InboundDeliveryItem

pub data InboundDeliveryDisposition : Type 0 where
  consumed quarantined retry adapter_rejected : InboundDeliveryDisposition

unfoldable pub is_terminal : InboundDeliveryDisposition → Bool
is_terminal consumed = true
is_terminal quarantined = true
is_terminal retry = false
is_terminal adapter_rejected = true

pub record InboundDeliveryResolution : Type 0 where
  pub event_id : Bytes
  pub disposition : InboundDeliveryDisposition

pub record DeliveryReceipt : Type 0 where
  pub transport : Bytes
  pub accepted_by : Bytes
  pub envelope_id : Bytes
  pub message_kind : ℕ
  pub recipient : Bytes
  pub failed_before_accept : ℕ

pub record Transport : Type 0 where
  pub send_with_receipt : DeliveryEnvelope → Result TransportError DeliveryReceipt
  pub receive : Result TransportError (List DeliveryEnvelope)
  pub is_connected : Bool
  pub name : Bytes

-- The method that the trait gives a transport which has only `send`.
unfoldable pub default_send_with_receipt :
    Bytes
    → (DeliveryEnvelope → Result TransportError (Unit {0}))
    → DeliveryEnvelope
    → Result TransportError DeliveryReceipt
default_send_with_receipt name send envelope =
    send envelope
    >> ok (record {
      transport = name;
      accepted_by = name;
      envelope_id = [];
      message_kind = envelope.kind;
      recipient = envelope.to;
      failed_before_accept = 0;
    })

abbrev pub TransportManager : Type 0
TransportManager = List Transport

unfoldable pub add_transport : TransportManager → Transport → TransportManager
add_transport manager transport = manager ++ (transport ∷ [])

-- The loop of `send_with_receipt`, with the last error so far.
unfoldable pub send_loop :
    Option TransportError
    → TransportManager
    → DeliveryEnvelope
    → Result TransportError DeliveryReceipt
send_loop none [] envelope = err send_failed
send_loop (some e) [] envelope = err e
send_loop last_error (transport ∷ rest) envelope = elim (transport.send_with_receipt envelope) [
  | ok receipt ↦ ok receipt
  | err e ↦ send_loop (some e) rest envelope
]

unfoldable pub manager_send_with_receipt :
    TransportManager → DeliveryEnvelope → Result TransportError DeliveryReceipt
manager_send_with_receipt manager envelope = send_loop none manager envelope

unfoldable pub manager_send : TransportManager → DeliveryEnvelope → Result TransportError (Unit {0})
manager_send manager envelope = manager_send_with_receipt manager envelope >>= λ _. ok tt

-- It never fails, so that the `Ok` around the messages is left out.
unfoldable pub manager_receive : TransportManager → List DeliveryEnvelope
manager_receive [] = []
manager_receive (transport ∷ rest) = elim transport.receive [
  | ok messages ↦ messages ++ manager_receive rest
  | err _ ↦ manager_receive rest
]

unfoldable pub connected_transports : TransportManager → List Bytes
connected_transports manager = map (λ t. t.name) (retain (λ t. t.is_connected) manager)
