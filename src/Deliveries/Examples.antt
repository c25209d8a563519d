-- ===== src/Deliveries/Examples.antt =====
-- The deliveries of a capsule with two offers, one of them called back.
use hivra_app.Prelude.{◌≡◌, some, [], ◌∷◌, ◌++◌, any, true}
use hivra_app.Primitives.{bytes_eq, neste}
use hivra_app.Samples.{key, signed, ledger_of, created, offered, called_back}
use hivra_app.Events.{Event, invitation_sent, relationship_broken}
use hivra_app.Pairs.Capsules.{Capsule, leaf}
use hivra_app.Deliveries.Pending.{pending_outgoing_invitation_deliveries_in_runtime}
use hivra_app.Deliveries.Skipped.{should_skip_incoming_delivery_append_with_timestamp}
use hivra_app.Deliveries.Once.{
  with_event, should_skip_incoming_delivery_append_with_timestamp-with_event,
}
use hivra_app.Deliveries.Unanswered.{
  is_unanswered, pending_outgoing_invitation_deliveries_in_runtime-unanswered,
}

abbrev offered_again : Event
offered_again = signed 4 invitation_sent (key 6 ++ (key 3 ++ key 2)) 4

-- A peer's break.
abbrev broken_off : Event
broken_off = record (signed 4 relationship_broken (key 2 ++ key 3) 5) { signer = key 2 }

abbrev capsule_of_offers : Capsule
capsule_of_offers = record {
  pubkey = key 1;
  capsule_type = leaf;
  network = neste;
  ledger = ledger_of (created ∷ offered ∷ called_back ∷ offered_again ∷ []);
}

pending_outgoing_invitation_deliveries_in_runtime-unanswered_example :
    any
      (λ d. bytes_eq d.invitation_id (key 6))
      (pending_outgoing_invitation_deliveries_in_runtime (some capsule_of_offers))
    ≡ is_unanswered (key 1) (key 6) capsule_of_offers.ledger.events
pending_outgoing_invitation_deliveries_in_runtime-unanswered_example =
    pending_outgoing_invitation_deliveries_in_runtime-unanswered capsule_of_offers (key 6)

should_skip_incoming_delivery_append_with_timestamp-with_event_example :
    should_skip_incoming_delivery_append_with_timestamp
      (some (with_event capsule_of_offers broken_off))
      relationship_broken
      (key 2 ++ key 3)
      (key 2)
      (some 9)
    ≡ true
should_skip_incoming_delivery_append_with_timestamp-with_event_example =
    should_skip_incoming_delivery_append_with_timestamp-with_event capsule_of_offers broken_off
      (some 9)
