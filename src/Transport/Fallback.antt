-- ===== src/Transport/Fallback.antt =====
-- The manager sends by the first transport that accepts the envelope.
use hivra_app.Prelude.{
  ◌≡◌, refl, ◌⊎◌, inl, inr, Option, none, some, List, [], ◌∷◌, ◌++◌, Result, ok, err, All, ap,
}
use hivra_app.Transport.{
  TransportError, send_failed, DeliveryEnvelope, DeliveryReceipt, Transport, TransportManager,
  send_loop, manager_send_with_receipt,
}

-- A transport that does not take the envelope.
abbrev pub Refuses : DeliveryEnvelope → Transport → Type 0
Refuses envelope transport = (e : TransportError) × (transport.send_with_receipt envelope ≡ err e)

-- A transport takes the envelope, all before it having refused it, and its receipt is the answer.
abbrev pub SentBy :
    TransportManager → DeliveryEnvelope → Result TransportError DeliveryReceipt → Type 0
SentBy manager envelope answer =
    (before after : List Transport) × (transport : Transport) × (receipt : DeliveryReceipt)
    × (manager ≡ before ++ (transport ∷ after))
    × All (Refuses envelope) before
    × (transport.send_with_receipt envelope ≡ ok receipt)
    × (answer ≡ ok receipt)

-- All transports refuse the envelope, and the answer is an error.
abbrev pub AllRefuse :
    TransportManager → DeliveryEnvelope → Result TransportError DeliveryReceipt → Type 0
AllRefuse manager envelope answer =
    All (Refuses envelope) manager × ((e : TransportError) × (answer ≡ err e))

abbrev Outcome :
    TransportManager → DeliveryEnvelope → Result TransportError DeliveryReceipt → Type 0
Outcome manager envelope answer = SentBy manager envelope answer ⊎ AllRefuse manager envelope answer

-- One round of the loop, by the answer of the transport and what the later rounds lead to.
one_round :
    (last_error : Option TransportError) (transport : Transport) (rest : TransportManager)
    (envelope : DeliveryEnvelope) (r : Result TransportError DeliveryReceipt)
    → transport.send_with_receipt envelope ≡ r
    → ((e : TransportError) → Outcome rest envelope (send_loop (some e) rest envelope))
    → Outcome (transport ∷ rest) envelope (send_loop last_error (transport ∷ rest) envelope)
unfolding send_loop
one_round last_error transport rest envelope (ok receipt) h later =
    inl ([], rest, transport, receipt, refl, tt, h, rw h refl)
one_round last_error transport rest envelope (err e) h later = elim (later e) [
  | inl (before, after, t, receipt, split, refused, sent, answer) ↦ inl (
    transport ∷ before,
    after,
    t,
    receipt,
    ap (◌∷◌ transport) split,
    ((e, h), refused),
    sent,
    rw h answer,
  )
  | inr (refused, (last, answer)) ↦ inr (((e, h), refused), (last, rw h answer))
]

send_loop_lem :
    (last_error : Option TransportError) (manager : TransportManager) (envelope : DeliveryEnvelope)
    → Outcome manager envelope (send_loop last_error manager envelope)
unfolding send_loop
send_loop_lem none [] envelope = inr (tt, (send_failed, refl))
send_loop_lem (some e) [] envelope = inr (tt, (e, refl))
send_loop_lem last_error (transport ∷ rest) envelope =
    one_round last_error transport rest envelope (transport.send_with_receipt envelope) refl
      (λ e. send_loop_lem (some e) rest envelope)

-- The manager's answer to an envelope is the receipt of the first transport that accepts it, all
-- before it having refused it; it is an error only if all transports refuse the envelope.
pub manager_send_with_receipt-outcome :
    (manager : TransportManager) (envelope : DeliveryEnvelope)
    → SentBy manager envelope (manager_send_with_receipt manager envelope)
      ⊎ AllRefuse manager envelope (manager_send_with_receipt manager envelope)
unfolding manager_send_with_receipt
manager_send_with_receipt-outcome manager envelope = send_loop_lem none manager envelope
