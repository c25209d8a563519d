-- ===== src/Deliveries/Skipped.antt =====
-- invitation_support.rs: whether the host leaves out an incoming delivery in place of appending it.
use hivra_app.Prelude.{
  ◌*◌, Bool, true, false, not, ◌&&◌, ◌||◌, Option, none, some, List, [], ◌∷◌, ltb, leb, ◌==◌,
  if◌then◌else◌, length, take, any, ok, err,
}
use mathlib.Core.Option
use hivra_app.Primitives.{Bytes, bytes_eq, PubKey, StarterId, StarterKind, juice, Timestamp}
use hivra_app.Events.{
  Event, EventKind, invitation_sent, invitation_received, invitation_accepted, invitation_rejected,
  invitation_expired, relationship_established, relationship_broken, event_kind_eq,
}
use hivra_app.Payloads.{
  RelationshipEstablished, RelationshipBroken, read_fixed_32, relationship_established_from_bytes,
  relationship_broken_from_bytes,
}
use hivra_app.Pairs.Capsules.{Capsule}
use hivra_app.Deliveries.{
  Runtime, runtime_events, RelationshipKey, is_kind, is_key, invitation_payload_has_known_shape,
  invitation_payload_sender_root, invitation_payload_starter_kind, invitation_payload_starter_id,
  invitation_payload_sender_transport, invitation_sender_anchor, find_starter_kind_by_id_in_ledger,
  incoming_invitation_reuses_empty_slot_rejected_sender_starter, invitation_offer_exists_in_runtime,
  invitation_is_resolved_in_runtime, relationship_key_from_established_payload,
  relationship_key_from_broken_payload, relationship_key_is_active_in_runtime,
  relationship_established_exists_for_invitation_in_runtime, invitation_accepted_exists_in_runtime,
  invitation_id_from_terminal_payload,
}
use hivra_app.Deliveries.Pending.{established_key, broken_key}

pub record InvitationLookupRecord : Type 0 where
  pub starter_id : StarterId
  pub starter_kind : StarterKind
  pub peer_pubkey : PubKey
  pub is_incoming : Bool
  pub sender_root_pubkey : Option PubKey

-- A raw time below the limit is in seconds, and no product with 1000 reaches the largest `u64`.
unfoldable pub normalize_delivery_timestamp : Timestamp → Timestamp
normalize_delivery_timestamp raw =
    if raw == 0 then 0 else if ltb raw 100000000000 then raw * 1000 else raw

-- `latest.map_or(ts, |cur| cur.max(ts))`
abbrev pub latest : Option Timestamp → Timestamp → Option Timestamp
latest none ts = some ts
latest (some cur) ts = some (if leb cur ts then ts else cur)

abbrev pub timestamp_step :
    RelationshipKey
    → Event
    → Option Timestamp × Option Timestamp
    → EventKind
    → Option Timestamp × Option Timestamp
timestamp_step target event (established, broken) relationship_established =
    if is_key target (relationship_key_from_established_payload event.payload)
    then (latest established event.timestamp, broken)
    else (established, broken)
timestamp_step target event (established, broken) relationship_broken =
    if is_key target (relationship_key_from_broken_payload event.payload)
    then (established, latest broken event.timestamp)
    else (established, broken)
timestamp_step target event times _ = times

unfoldable pub timestamp_loop :
    RelationshipKey
    → Option Timestamp × Option Timestamp
    → List Event
    → Option Timestamp × Option Timestamp
timestamp_loop target times [] = times
timestamp_loop target times (event ∷ events) =
    timestamp_loop target (timestamp_step target event times event.kind) events

unfoldable pub relationship_key_latest_timestamps_in_runtime :
    Runtime → RelationshipKey → Option Timestamp × Option Timestamp
relationship_key_latest_timestamps_in_runtime runtime target =
    timestamp_loop target (none, none) (runtime_events runtime)

-- The record of an offer in the ledger of the capsule.
abbrev pub is_incoming_offer : Capsule → Event → Bool
is_incoming_offer capsule event =
    is_kind invitation_received event
    || (bytes_eq (read_fixed_32 event.payload 64) capsule.pubkey
        && not (bytes_eq event.signer capsule.pubkey))

abbrev pub lookup_record : Capsule → Event → InvitationLookupRecord
lookup_record capsule event = record {
  starter_id = read_fixed_32 event.payload 32;
  starter_kind = Option.get_or (invitation_payload_starter_kind event.payload) (
      Option.get_or
        (find_starter_kind_by_id_in_ledger capsule.ledger (read_fixed_32 event.payload 32)) juice);
  peer_pubkey =
      if is_incoming_offer capsule event
      then Option.get_or (invitation_payload_sender_transport event.payload) event.signer
      else read_fixed_32 event.payload 64;
  is_incoming = is_incoming_offer capsule event;
  sender_root_pubkey = invitation_payload_sender_root event.payload;
}

abbrev pub is_expected : Option Bool → Bool → Bool
is_expected none incoming = true
is_expected (some true) incoming = incoming
is_expected (some false) incoming = not incoming

unfoldable pub find_offer :
    Capsule → Bytes → Option Bool → List Event → Option InvitationLookupRecord
find_offer capsule invitation_id expect_incoming [] = none
find_offer capsule invitation_id expect_incoming (event ∷ events) =
    let rest = find_offer capsule invitation_id expect_incoming events in
    if not (is_kind invitation_sent event) && not (is_kind invitation_received event)
    then rest
    else if not (invitation_payload_has_known_shape event.payload)
    then rest
    else if not (bytes_eq (take 32 event.payload) invitation_id)
    then rest
    else if is_expected expect_incoming (is_incoming_offer capsule event)
    then some (lookup_record capsule event)
    else rest

unfoldable pub find_invitation_sent_in_runtime_with_direction :
    Runtime → Bytes → Option Bool → Option InvitationLookupRecord
find_invitation_sent_in_runtime_with_direction none invitation_id expect_incoming = none
find_invitation_sent_in_runtime_with_direction (some capsule) invitation_id expect_incoming =
    find_offer capsule invitation_id expect_incoming capsule.ledger.events

unfoldable pub find_invitation_sent_in_runtime : Runtime → Bytes → Option InvitationLookupRecord
find_invitation_sent_in_runtime runtime invitation_id =
    find_invitation_sent_in_runtime_with_direction runtime invitation_id none

abbrev pub is_root : Option PubKey → PubKey → Bool
is_root none signer = false
is_root (some root) signer = bytes_eq root signer

abbrev pub is_sender : Option InvitationLookupRecord → PubKey → Bool
is_sender none signer = false
is_sender (some r) signer = bytes_eq r.peer_pubkey signer || is_root r.sender_root_pubkey signer

unfoldable pub incoming_invitation_expired_matches_runtime : Runtime → Bytes → PubKey → Bool
incoming_invitation_expired_matches_runtime runtime invitation_id signer =
    is_sender (find_invitation_sent_in_runtime_with_direction runtime invitation_id (some true))
      signer

-- runtime_support.rs
unfoldable pub event_exists_in_runtime_with_signer : Runtime → EventKind → Bytes → PubKey → Bool
event_exists_in_runtime_with_signer runtime kind payload signer =
    any
      (λ event.
        is_kind kind event && (bytes_eq event.payload payload && bytes_eq event.signer signer))
      (runtime_events runtime)

unfoldable pub skip_established : Runtime → RelationshipEstablished → PubKey → Bool
skip_established runtime parsed signer =
    if not (bytes_eq parsed.peer_pubkey signer)
    then true
    else if not (invitation_accepted_exists_in_runtime runtime parsed.invitation_id)
    then true
    else if relationship_established_exists_for_invitation_in_runtime runtime parsed.invitation_id
    then true
    else relationship_key_is_active_in_runtime runtime (established_key parsed)

abbrev pub breaker_matches : RelationshipBroken → Option PubKey → PubKey → Bool
breaker_matches parsed none signer = bytes_eq parsed.peer_pubkey signer
breaker_matches parsed (some root) signer = bytes_eq root signer

abbrev pub not_after : Timestamp → Option Timestamp → Bool
not_after incoming_ts none = false
not_after incoming_ts (some last_break_ts) = leb incoming_ts last_break_ts

abbrev pub before : Timestamp → Option Timestamp → Bool
before incoming_ts none = false
before incoming_ts (some last_established_ts) = ltb incoming_ts last_established_ts

-- A break that is not younger than the latest one, or older than the latest establishment.
abbrev pub is_stale : Option Timestamp → Option Timestamp × Option Timestamp → Bool
is_stale none times = false
is_stale (some incoming_ts) (established, broken) =
    not_after incoming_ts broken || before incoming_ts established

unfoldable pub skip_broken : Runtime → RelationshipBroken → PubKey → Option Timestamp → Bool
skip_broken runtime parsed signer incoming_timestamp =
    if not (breaker_matches parsed parsed.peer_root_pubkey signer)
    then true
    else if is_stale incoming_timestamp
        (relationship_key_latest_timestamps_in_runtime runtime (broken_key parsed))
    then true
    else not (relationship_key_is_active_in_runtime runtime (broken_key parsed))

abbrev pub reuses_starter : Runtime → Bytes → PubKey → Option StarterId → Bool
reuses_starter runtime payload signer none = false
reuses_starter runtime payload signer (some starter_id) =
    incoming_invitation_reuses_empty_slot_rejected_sender_starter runtime (take 32 payload)
      starter_id (invitation_sender_anchor payload signer)

unfoldable pub skip_received : Runtime → Bytes → PubKey → Bool
skip_received runtime payload signer =
    if ltb (length payload) 32
    then false
    else invitation_is_resolved_in_runtime runtime (take 32 payload)
      || (invitation_offer_exists_in_runtime runtime invitation_received (take 32 payload) signer
          || reuses_starter runtime payload signer (invitation_payload_starter_id payload))

abbrev pub is_found : Option InvitationLookupRecord → Bool
is_found none = false
is_found (some _) = true

-- An answer needs an own offer, and an expiry one of the signer's.
abbrev pub lacks_offer : Runtime → Bytes → PubKey → EventKind → Bool
lacks_offer runtime invitation_id signer invitation_accepted =
    not
      (is_found (find_invitation_sent_in_runtime_with_direction runtime invitation_id (some false)))
lacks_offer runtime invitation_id signer invitation_rejected =
    not
      (is_found (find_invitation_sent_in_runtime_with_direction runtime invitation_id (some false)))
lacks_offer runtime invitation_id signer invitation_expired = not (
    is_sender (find_invitation_sent_in_runtime_with_direction runtime invitation_id (some true))
      signer)
lacks_offer runtime invitation_id signer _ = false

abbrev pub skip_terminal : Runtime → EventKind → PubKey → Option Bytes → Bool
skip_terminal runtime kind signer none = false
skip_terminal runtime kind signer (some invitation_id) =
    if invitation_is_resolved_in_runtime runtime invitation_id
      && not (
          event_kind_eq kind invitation_expired
          && incoming_invitation_expired_matches_runtime runtime invitation_id signer)
    then true
    else lacks_offer runtime invitation_id signer kind

-- The part of the function for the kind, and whether it answers by itself.
unfoldable pub should_skip_incoming_delivery_append_with_timestamp :
    Runtime → EventKind → Bytes → PubKey → Option Timestamp → Bool
should_skip_incoming_delivery_append_with_timestamp runtime relationship_established payload signer
      incoming_timestamp =
    elim (relationship_established_from_bytes payload) [
      | err _ ↦ true
      | ok parsed ↦
          skip_established runtime parsed signer
          || event_exists_in_runtime_with_signer runtime relationship_established payload signer
    ]
should_skip_incoming_delivery_append_with_timestamp runtime relationship_broken payload signer
      incoming_timestamp =
    elim (relationship_broken_from_bytes payload) [
      | err _ ↦ true
      | ok parsed ↦
          skip_broken runtime parsed signer
            (Option.map normalize_delivery_timestamp incoming_timestamp)
    ]
should_skip_incoming_delivery_append_with_timestamp runtime invitation_received payload signer
      incoming_timestamp =
    skip_received runtime payload signer
    || event_exists_in_runtime_with_signer runtime invitation_received payload signer
should_skip_incoming_delivery_append_with_timestamp runtime kind payload signer incoming_timestamp =
    skip_terminal runtime kind signer (invitation_id_from_terminal_payload kind payload)
    || event_exists_in_runtime_with_signer runtime kind payload signer
