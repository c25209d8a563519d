-- ===== src/Transport/Examples.antt =====
-- The property of the transport manager at two transports.
use hivra_app.Prelude.{◌⊎◌, [], ◌∷◌, none, ok, err, true, false}
use hivra_app.Transport.{send_failed, DeliveryEnvelope, Transport, manager_send_with_receipt}
use hivra_app.Transport.Fallback.{SentBy, AllRefuse, manager_send_with_receipt-outcome}
use hivra_app.Samples.{key}

abbrev letter : DeliveryEnvelope
letter = record {
  schema_version = 1;
  from = key 1;
  to = key 2;
  kind = 7;
  payload = [];
  timestamp = 40;
  correlation_id = none;
  domain_event = none;
}

abbrev broken : Transport
broken = record {
  send_with_receipt = λ envelope. err send_failed;
  receive = ok [];
  is_connected = false;
  name = b'a' ∷ [];
}

abbrev working : Transport
working = record {
  send_with_receipt = λ envelope. ok (record {
    transport = b'b' ∷ [];
    accepted_by = b'b' ∷ [];
    envelope_id = [];
    message_kind = envelope.kind;
    recipient = envelope.to;
    failed_before_accept = 0;
  });
  receive = ok [];
  is_connected = true;
  name = b'b' ∷ [];
}

manager_send_with_receipt-outcome_example :
    SentBy (broken ∷ working ∷ []) letter (manager_send_with_receipt (broken ∷ working ∷ []) letter)
    ⊎ AllRefuse
        (broken ∷ working ∷ [])
        letter
        (manager_send_with_receipt (broken ∷ working ∷ []) letter)
manager_send_with_receipt-outcome_example =
    manager_send_with_receipt-outcome (broken ∷ working ∷ []) letter
