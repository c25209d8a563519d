-- ===== src/Deliveries/Once.antt =====
-- An appended delivery is left out when it comes again.
use hivra_app.Prelude.{
  Bool, true, false, ◌≡◌, refl, ap, ◌∙◌, ◌||◌, Option, some, List, [], ◌∷◌, ◌++◌, arith, any,
  any-append, same_refl, ok, err,
}
use mathlib.Core.Option
use hivra_app.Primitives.{Bytes, Bytes-discrete, bytes_eq, PubKey, Timestamp}
use hivra_app.Events.{
  Event, EventKind, EventKind-discrete, capsule_created, invitation_sent, invitation_received,
  invitation_accepted, invitation_rejected, invitation_expired, relationship_established,
  relationship_broken, starter_created, starter_burned,
}
use hivra_app.Payloads.{
  Parsed, RelationshipEstablished, RelationshipBroken, relationship_established_from_bytes,
  relationship_broken_from_bytes,
}
use hivra_app.Pairs.Capsules.{Capsule}
use hivra_app.Deliveries.{
  Runtime, RelationshipKey, activity, active_after, relationship_key_is_active_in_runtime,
  relationship_key_from_broken_payload,
}
use hivra_app.Deliveries.Pending.{broken_key}
use hivra_app.Deliveries.Skipped.{
  normalize_delivery_timestamp, event_exists_in_runtime_with_signer, skip_established, skip_broken,
  should_skip_incoming_delivery_append_with_timestamp,
}

-- The capsule with one event more.
abbrev pub with_event : Capsule → Event → Capsule
with_event capsule event = record capsule {
  ledger = record capsule.ledger { events = capsule.ledger.events ++ (event ∷ []) };
}

bytes_eq_refl : (a : Bytes) → bytes_eq a a ≡ true
bytes_eq_refl a = same_refl Bytes-discrete a

or_true : (a b : Bool) → b ≡ true → (a || b) ≡ true
or_true a b h = ground arith

event_exists-with_event :
    (capsule : Capsule) (event : Event)
    → event_exists_in_runtime_with_signer
        (some (with_event capsule event))
        event.kind
        event.payload
        event.signer
      ≡ true
unfolding event_exists_in_runtime_with_signer any
event_exists-with_event capsule event =
    rw
      (
        any-append,
        same_refl EventKind-discrete event.kind,
        bytes_eq_refl event.payload,
        bytes_eq_refl event.signer,
      )
      (ground arith)

active_after-append_one :
    (target : RelationshipKey) (active : Bool) (events : List Event) (event : Event)
    → active_after target active (events ++ (event ∷ []))
      ≡ activity target event.payload (active_after target active events) event.kind
unfolding active_after
active_after-append_one target active [] event = refl
active_after-append_one target active (x ∷ events) event =
    active_after-append_one target (activity target x.payload active x.kind) events event

broken_ends :
    (payload : Bytes) (active : Bool) (parsed : RelationshipBroken)
    → relationship_broken_from_bytes payload ≡ ok parsed
    → activity (broken_key parsed) payload active relationship_broken ≡ false
unfolding relationship_key_from_broken_payload
broken_ends payload active parsed h =
    rw (h, bytes_eq_refl parsed.peer_pubkey, bytes_eq_refl parsed.own_starter_id) refl

skip_broken-inactive :
    (runtime : Runtime) (parsed : RelationshipBroken) (signer : PubKey) (time : Option Timestamp)
    → relationship_key_is_active_in_runtime runtime (broken_key parsed) ≡ false
    → skip_broken runtime parsed signer time ≡ true
unfolding skip_broken
skip_broken-inactive runtime parsed signer time h = rw h (ground arith)

established_again :
    (runtime : Runtime) (payload : Bytes) (signer : PubKey)
    (parsed : Parsed RelationshipEstablished)
    → event_exists_in_runtime_with_signer runtime relationship_established payload signer ≡ true
    → elim parsed [
      | err _ ↦ true
      | ok p ↦
          skip_established runtime p signer
          || event_exists_in_runtime_with_signer runtime relationship_established payload signer
    ]
      ≡ true
established_again runtime payload signer (err _) h = refl
established_again runtime payload signer (ok p) h = or_true _ _ h

broken_again :
    (capsule : Capsule) (event : Event) (time : Option Timestamp)
    (parsed : Parsed RelationshipBroken)
    → event.kind ≡ relationship_broken
    → relationship_broken_from_bytes event.payload ≡ parsed
    → elim parsed [
      | err _ ↦ true
      | ok p ↦ skip_broken (some (with_event capsule event)) p event.signer time
    ]
      ≡ true
unfolding relationship_key_is_active_in_runtime
broken_again capsule event time (err _) h k = refl
broken_again capsule event time (ok p) h k =
    skip_broken-inactive (some (with_event capsule event)) p event.signer time (
      active_after-append_one (broken_key p) false capsule.ledger.events event
      ∙ (ap (activity (broken_key p) event.payload _) h ∙ broken_ends event.payload _ p k))

again :
    (capsule : Capsule) (event : Event) (time : Option Timestamp) (kind : EventKind)
    → event.kind ≡ kind
    → event_exists_in_runtime_with_signer
        (some (with_event capsule event))
        kind
        event.payload
        event.signer
      ≡ true
    → should_skip_incoming_delivery_append_with_timestamp
        (some (with_event capsule event))
        kind
        event.payload
        event.signer
        time
      ≡ true
unfolding should_skip_incoming_delivery_append_with_timestamp
again capsule event time relationship_established k h =
    established_again (some (with_event capsule event)) event.payload event.signer
      (relationship_established_from_bytes event.payload) h
again capsule event time relationship_broken k h =
    broken_again capsule event (Option.map normalize_delivery_timestamp time)
      (relationship_broken_from_bytes event.payload) k refl
again capsule event time invitation_received k h = or_true _ _ h
again capsule event time invitation_sent k h = or_true _ _ h
again capsule event time invitation_accepted k h = or_true _ _ h
again capsule event time invitation_rejected k h = or_true _ _ h
again capsule event time invitation_expired k h = or_true _ _ h
again capsule event time capsule_created k h = or_true _ _ h
again capsule event time starter_created k h = or_true _ _ h
again capsule event time starter_burned k h = or_true _ _ h

-- Once the ledger ends with the event of a delivery, the host leaves out a delivery of the same
-- kind, payload and signer, whatever time it carries and whatever stands before it.
pub should_skip_incoming_delivery_append_with_timestamp-with_event :
    (capsule : Capsule) (event : Event) (time : Option Timestamp)
    → should_skip_incoming_delivery_append_with_timestamp
        (some (with_event capsule event))
        event.kind
        event.payload
        event.signer
        time
      ≡ true
should_skip_incoming_delivery_append_with_timestamp-with_event capsule event time =
    again capsule event time event.kind refl (event_exists-with_event capsule event)
