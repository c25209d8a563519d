-- ===== src/Deliveries.antt =====
-- platform/hivra-ffi/src/invitation_support.rs: what the host reads from the ledger of its
-- capsule about invitations and relationships, and which facts it still has to deliver.
--
-- The global runtime is the capsule that it holds, if any. A `HashMap` is a list of its entries
-- with distinct keys; the code sorts the entries before it returns them.
pub mod Pending
pub mod Terminals
pub mod Skipped
pub mod Once
pub mod Acceptance
pub mod Unanswered
mod Examples
use hivra_app.Prelude.{
  ℕ, Bool, true, false, not, ◌&&◌, ◌||◌, Option, none, some, List, [], ◌∷◌, ltb, leb, ◌==◌,
  if◌then◌else◌, length, take, drop, get_or, any, find, map, reverse, Result, ok, err, to_option,
  bytes_le,
}
use mathlib.Core.Option
use hivra_app.Primitives.{
  Bytes, bytes_eq, option_eq, PubKey, StarterId, StarterKind, juice, spark, seed, pulse, kick,
}
use hivra_app.Events.{
  Event, EventKind, event_kind_eq, invitation_sent, invitation_received, invitation_accepted,
  invitation_rejected, invitation_expired, relationship_established, relationship_broken,
  starter_created,
}
use hivra_app.Payloads.{
  InvitationRejected, invitation_rejected_from_bytes, invitation_accepted_from_bytes, RejectReason,
  empty_slot, other, read_fixed_32, relationship_established_from_bytes,
  relationship_broken_from_bytes, starter_created_from_bytes,
}
use hivra_app.Ledger.{Ledger}
use hivra_app.Pairs.Capsules.{Capsule}

abbrev pub Runtime : Type 0
Runtime = Option Capsule

-- The events of the capsule, and none without one.
abbrev pub runtime_events : Runtime → List Event
runtime_events none = []
runtime_events (some capsule) = capsule.ledger.events

unfoldable pub starter_kind_from_slot : ℕ → Option StarterKind
starter_kind_from_slot slot =
    if slot == 0
    then some juice
    else if slot == 1
    then some spark
    else if slot == 2
    then some seed
    else if slot == 3
    then some pulse
    else if slot == 4
    then some kick
    else none

abbrev pub has_length : Bytes → ℕ → Bool
has_length bytes n = length bytes == n

unfoldable pub invitation_payload_has_known_shape : Bytes → Bool
invitation_payload_has_known_shape payload =
    has_length payload 96
    || (has_length payload 97
        || (has_length payload 128
            || (has_length payload 129 || (has_length payload 161 || has_length payload 225))))

unfoldable pub invitation_payload_sender_root : Bytes → Option PubKey
invitation_payload_sender_root payload =
    if leb 128 (length payload) then some (read_fixed_32 payload 96) else none

unfoldable pub invitation_payload_starter_kind : Bytes → Option StarterKind
invitation_payload_starter_kind payload =
    if has_length payload 97
    then starter_kind_from_slot (get_or payload 96 0)
    else if has_length payload 129 || (has_length payload 161 || has_length payload 225)
    then starter_kind_from_slot (get_or payload 128 0)
    else none

unfoldable pub invitation_payload_sender_transport : Bytes → Option PubKey
invitation_payload_sender_transport payload =
    if not (has_length payload 161) && not (has_length payload 225)
    then none
    else some (read_fixed_32 payload 129)

unfoldable pub invitation_payload_starter_id : Bytes → Option StarterId
invitation_payload_starter_id payload =
    if not (invitation_payload_has_known_shape payload)
    then none
    else some (read_fixed_32 payload 32)

unfoldable pub invitation_sender_anchor : Bytes → PubKey → PubKey
invitation_sender_anchor payload signer =
    Option.get_or (invitation_payload_sender_root payload) signer

abbrev pub is_kind : EventKind → Event → Bool
is_kind kind event = event_kind_eq event.kind kind

abbrev pub is_empty_slot : RejectReason → Bool
is_empty_slot empty_slot = true
is_empty_slot other = false

-- The other invitations that were rejected for want of a slot.
unfoldable pub empty_slot_rejections : Bytes → List Event → List Bytes
empty_slot_rejections invitation_id [] = []
empty_slot_rejections invitation_id (event ∷ events) =
    let rest = empty_slot_rejections invitation_id events in
    if not (is_kind invitation_rejected event)
    then rest
    else elim (invitation_rejected_from_bytes event.payload) [
      | err _ ↦ rest
      | ok payload ↦
          if is_empty_slot payload.reason && not (bytes_eq payload.invitation_id invitation_id)
          then payload.invitation_id ∷ rest
          else rest
    ]

abbrev pub offers_starter : List Bytes → StarterId → PubKey → Event → Bool
offers_starter rejections starter_id sender_anchor event =
    is_kind invitation_received event
    && (invitation_payload_has_known_shape event.payload
        && (any (λ id. bytes_eq (take 32 event.payload) id) rejections
            && (option_eq (invitation_payload_starter_id event.payload) (some starter_id)
                && bytes_eq (invitation_sender_anchor event.payload event.signer) sender_anchor)))

unfoldable pub incoming_invitation_reuses_empty_slot_rejected_sender_starter :
    Runtime → Bytes → StarterId → PubKey → Bool
incoming_invitation_reuses_empty_slot_rejected_sender_starter runtime invitation_id starter_id
      anchor =
    let rejections = empty_slot_rejections invitation_id (runtime_events runtime) in
    if length rejections == 0
    then false
    else any (offers_starter rejections starter_id anchor) (runtime_events runtime)

-- The loop of `find_starter_kind_by_id_in_ledger`, from the newest event on.
unfoldable pub newest_kind : PubKey → StarterId → List Event → Option StarterKind
newest_kind owner starter_id [] = none
newest_kind owner starter_id (event ∷ events) =
    let rest = newest_kind owner starter_id events in
    if not (is_kind starter_created event) || not (bytes_eq event.signer owner)
    then rest
    else elim (starter_created_from_bytes event.payload) [
      | err _ ↦ rest
      | ok payload ↦ if bytes_eq payload.starter_id starter_id then some payload.kind else rest
    ]

unfoldable pub find_starter_kind_by_id_in_ledger : Ledger → StarterId → Option StarterKind
find_starter_kind_by_id_in_ledger ledger starter_id =
    newest_kind ledger.owner starter_id (reverse ledger.events)

unfoldable pub invitation_offer_exists_in_runtime : Runtime → EventKind → Bytes → PubKey → Bool
invitation_offer_exists_in_runtime runtime kind invitation_id signer =
    any
      (λ event.
        is_kind kind event
        && (bytes_eq event.signer signer
            && (invitation_payload_has_known_shape event.payload
                && bytes_eq (take 32 event.payload) invitation_id)))
      (runtime_events runtime)

abbrev pub is_accept_length : Bytes → Bool
is_accept_length payload = has_length payload 96 || has_length payload 128

abbrev pub resolves : Bytes → Bytes → EventKind → Bool
resolves invitation_id payload invitation_accepted =
    is_accept_length payload && bytes_eq (take 32 payload) invitation_id
resolves invitation_id payload invitation_rejected =
    has_length payload 33 && bytes_eq (take 32 payload) invitation_id
resolves invitation_id payload invitation_expired =
    has_length payload 32 && bytes_eq payload invitation_id
resolves invitation_id payload _ = false

unfoldable pub invitation_is_resolved_in_runtime : Runtime → Bytes → Bool
invitation_is_resolved_in_runtime runtime invitation_id =
    any (λ event. resolves invitation_id event.payload event.kind) (runtime_events runtime)

pub record RelationshipKey : Type 0 where
  pub peer_pubkey : PubKey
  pub own_starter_id : StarterId

abbrev pub relationship_key_eq : RelationshipKey → RelationshipKey → Bool
relationship_key_eq a b =
    bytes_eq a.peer_pubkey b.peer_pubkey && bytes_eq a.own_starter_id b.own_starter_id

unfoldable pub relationship_key_from_established_payload : Bytes → Option RelationshipKey
relationship_key_from_established_payload payload =
    Option.map (λ p. record { peer_pubkey = p.peer_pubkey; own_starter_id = p.own_starter_id })
      (to_option (relationship_established_from_bytes payload))

unfoldable pub relationship_key_from_broken_payload : Bytes → Option RelationshipKey
relationship_key_from_broken_payload payload =
    Option.map (λ p. record { peer_pubkey = p.peer_pubkey; own_starter_id = p.own_starter_id })
      (to_option (relationship_broken_from_bytes payload))

abbrev pub is_key : RelationshipKey → Option RelationshipKey → Bool
is_key target none = false
is_key target (some key) = relationship_key_eq key target

abbrev pub activity : RelationshipKey → Bytes → Bool → EventKind → Bool
activity target payload active relationship_established =
    if is_key target (relationship_key_from_established_payload payload) then true else active
activity target payload active relationship_broken =
    if is_key target (relationship_key_from_broken_payload payload) then false else active
activity target payload active _ = active

unfoldable pub active_after : RelationshipKey → Bool → List Event → Bool
active_after target active [] = active
active_after target active (event ∷ events) =
    active_after target (activity target event.payload active event.kind) events

unfoldable pub relationship_key_is_active_in_runtime : Runtime → RelationshipKey → Bool
relationship_key_is_active_in_runtime runtime target =
    active_after target false (runtime_events runtime)

unfoldable pub relationship_established_exists_for_invitation_in_runtime : Runtime → Bytes → Bool
relationship_established_exists_for_invitation_in_runtime runtime invitation_id =
    any
      (λ event.
        is_kind relationship_established event
        && elim (relationship_established_from_bytes event.payload) [
          | err _ ↦ false
          | ok payload ↦ bytes_eq payload.invitation_id invitation_id
        ])
      (runtime_events runtime)

unfoldable pub invitation_accepted_exists_in_runtime : Runtime → Bytes → Bool
invitation_accepted_exists_in_runtime runtime invitation_id =
    any
      (λ event.
        is_kind invitation_accepted event && elim (invitation_accepted_from_bytes event.payload) [
          | err _ ↦ false
          | ok payload ↦ bytes_eq payload.invitation_id invitation_id
        ])
      (runtime_events runtime)

unfoldable pub invitation_id_from_terminal_payload : EventKind → Bytes → Option Bytes
invitation_id_from_terminal_payload invitation_accepted payload =
    if is_accept_length payload then some (take 32 payload) else none
invitation_id_from_terminal_payload invitation_rejected payload =
    if has_length payload 33 then some (take 32 payload) else none
invitation_id_from_terminal_payload invitation_expired payload =
    if has_length payload 32 then some payload else none
invitation_id_from_terminal_payload _ payload = none
