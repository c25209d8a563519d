-- ===== src/Relationships/Projection.antt =====
-- The relationships of a ledger: the loop of `relationship_current_view_v1` (relationship.rs).
use hivra_app.Prelude.{
  Bool, true, false, not, ◌&&◌, ◌||◌, Option, none, some, List, [], ◌∷◌, ok, err, if◌then◌else◌,
  ltb, ◌==◌, length, get_or, find,
}
use hivra_app.Primitives.{
  Bytes, bytes_eq, option_eq, PubKey, StarterId, StarterKind, kind_from_u8, Timestamp,
}
use hivra_app.Events.{Event, EventKind, relationship_established, relationship_broken}
use hivra_app.Payloads.{
  read_fixed_32, relationship_established_from_bytes, RelationshipBroken,
  relationship_broken_from_bytes,
}
use hivra_app.Ledger.{Ledger}
use hivra_app.Invitations.{
  InvitationStatus, pending, accepted, rejected, expired, InvitationDirection, outgoing, incoming,
  InvitationRecord,
}
use hivra_app.Invitations.Records.{invitations_with_status}

pub record ProjectedRelationship : Type 0 where
  pub peer_pubkey : PubKey
  pub peer_root_pubkey : Option PubKey
  pub own_starter_id : StarterId
  pub peer_starter_id : StarterId
  pub kind : StarterKind
  pub established_at : Timestamp
  pub is_active : Bool
  pub has_pending_remote_break : Bool

pub record EstablishedFact : Type 0 where
  pub peer_pubkey : PubKey
  pub sender_pubkey : Option PubKey
  pub invitation_id : Option Bytes
  pub peer_root_pubkey : Option PubKey
  pub sender_root_pubkey : Option PubKey
  pub own_starter_id : StarterId
  pub peer_starter_id : StarterId
  pub kind : StarterKind

-- The old payload of 97 bytes.
unfoldable pub parse_old_fact : Bytes → Option EstablishedFact
parse_old_fact bytes = elim (kind_from_u8 (get_or bytes 96 0)) [
  | none ↦ none
  | some kind ↦ some (record {
    peer_pubkey = read_fixed_32 bytes 0;
    sender_pubkey = none;
    invitation_id = none;
    peer_root_pubkey = none;
    sender_root_pubkey = none;
    own_starter_id = read_fixed_32 bytes 32;
    peer_starter_id = read_fixed_32 bytes 64;
    kind = kind;
  })
]

unfoldable pub parse_established_fact : Bytes → Option EstablishedFact
parse_established_fact bytes =
    if length bytes == 97
    then parse_old_fact bytes
    else elim (relationship_established_from_bytes bytes) [
      | err _ ↦ none
      | ok payload ↦ some (record {
        peer_pubkey = payload.peer_pubkey;
        sender_pubkey = some payload.sender_pubkey;
        invitation_id = some payload.invitation_id;
        peer_root_pubkey = payload.peer_root_pubkey;
        sender_root_pubkey = payload.sender_root_pubkey;
        own_starter_id = payload.own_starter_id;
        peer_starter_id = payload.peer_starter_id;
        kind = payload.kind;
      })
    ]

abbrev pub resolve_peer_root : Option PubKey → Option PubKey → PubKey → Option PubKey
resolve_peer_root none sender owner = sender
resolve_peer_root (some peer) none owner = some peer
resolve_peer_root (some peer) (some sender) owner =
    if bytes_eq peer owner && not (bytes_eq sender owner) then some sender else some peer

-- The sender's key where the fact is seen from the peer: `swap_to_sender`.
abbrev pub swapped_peer : EstablishedFact → PubKey → Option PubKey
swapped_peer fact owner = elim fact.sender_root_pubkey [
  | none ↦ none
  | some root ↦
      if option_eq fact.peer_root_pubkey (some owner) && not (bytes_eq root owner)
      then fact.sender_pubkey
      else none
]

unfoldable pub orient_established : EstablishedFact → PubKey → Timestamp → ProjectedRelationship
orient_established fact owner established_at =
    let peer_root = resolve_peer_root fact.peer_root_pubkey fact.sender_root_pubkey owner in
    elim (swapped_peer fact owner) [
      | some sender ↦ record {
        peer_pubkey = sender;
        peer_root_pubkey = peer_root;
        own_starter_id = fact.peer_starter_id;
        peer_starter_id = fact.own_starter_id;
        kind = fact.kind;
        established_at = established_at;
        is_active = true;
        has_pending_remote_break = false;
      }
      | none ↦ record {
        peer_pubkey = fact.peer_pubkey;
        peer_root_pubkey = peer_root;
        own_starter_id = fact.own_starter_id;
        peer_starter_id = fact.peer_starter_id;
        kind = fact.kind;
        established_at = established_at;
        is_active = true;
        has_pending_remote_break = false;
      }
    ]

abbrev pub is_ended : InvitationStatus → Bool
is_ended pending = false
is_ended (accepted _ _ _) = false
is_ended (rejected _) = true
is_ended expired = true

abbrev pub is_ended? : Option InvitationRecord → Bool
is_ended? none = false
is_ended? (some r) = is_ended r.status

-- The peer's root as the invitation tells it.
abbrev pub accepted_root :
    PubKey → Option PubKey → InvitationRecord → InvitationStatus → Option PubKey
accepted_root owner local_transport r (accepted _ from_pubkey accepter_root_pubkey) =
    if option_eq local_transport (some from_pubkey)
      && not (option_eq r.responded_signer (some owner))
    then accepter_root_pubkey
    else none
accepted_root owner local_transport r _ = none

abbrev pub root_by_direction :
    PubKey → Option PubKey → InvitationRecord → InvitationDirection → Option PubKey
root_by_direction owner local_transport r incoming = r.sender_root_pubkey
root_by_direction owner local_transport r outgoing = accepted_root owner local_transport r r.status

abbrev pub invited_root : PubKey → Option PubKey → Option InvitationRecord → Option PubKey
invited_root owner local_transport none = none
invited_root owner local_transport (some r) = root_by_direction owner local_transport r r.direction

abbrev pub with_root : ProjectedRelationship → Option PubKey → ProjectedRelationship
with_root r root = elim r.peer_root_pubkey [
  | some _ ↦ r
  | none ↦ record r { peer_root_pubkey = root }
]

abbrev pub same_key : PubKey → StarterId → ProjectedRelationship → Bool
same_key peer own_starter_id r =
    bytes_eq r.peer_pubkey peer && bytes_eq r.own_starter_id own_starter_id

-- `*current = relationship` at the first entry with the key, or a push.
unfoldable pub put : ProjectedRelationship → List ProjectedRelationship → List ProjectedRelationship
put r [] = r ∷ []
put r (current ∷ projected) =
    if same_key r.peer_pubkey r.own_starter_id current
    then r ∷ projected
    else current ∷ put r projected

abbrev pub invitation_of : List InvitationRecord → Option Bytes → Option InvitationRecord
invitation_of records none = none
invitation_of records (some id) = find (λ r. bytes_eq r.invitation_id id) records

-- The owner itself, or the capsule's own transport key.
abbrev pub is_self : PubKey → Option PubKey → ProjectedRelationship → Bool
is_self owner local_transport r =
    option_eq r.peer_root_pubkey (some owner) || option_eq local_transport (some r.peer_pubkey)

unfoldable pub establish_fact :
    PubKey
    → Option PubKey
    → List InvitationRecord
    → Timestamp
    → EstablishedFact
    → List ProjectedRelationship
    → List ProjectedRelationship
establish_fact owner local_transport records at fact projected =
    let invitation = invitation_of records fact.invitation_id in
    if is_ended? invitation
    then projected
    else let r =
        with_root (orient_established fact owner at)
          (invited_root owner local_transport invitation) in
      if is_self owner local_transport r then projected else put r projected

unfoldable pub apply_break :
    PubKey
    → Option PubKey
    → PubKey
    → Timestamp
    → RelationshipBroken
    → ProjectedRelationship
    → ProjectedRelationship
apply_break owner local_transport signer at broken current =
    let matches_local = bytes_eq signer owner || option_eq local_transport (some signer) in
    let matches_peer =
      bytes_eq signer current.peer_pubkey
      || (option_eq broken.peer_root_pubkey (some signer)
          && option_eq current.peer_root_pubkey (some signer)) in
    let pending_remote = not matches_local && matches_peer in
    if ltb at current.established_at
    then current
    else if not matches_local && not matches_peer
    then current
    else if pending_remote && (not current.is_active && not current.has_pending_remote_break)
    then current
    else record current { is_active = pending_remote; has_pending_remote_break = pending_remote }

-- The first entry with the key of the break, changed.
unfoldable pub break_first :
    PubKey
    → StarterId
    → (ProjectedRelationship → ProjectedRelationship)
    → List ProjectedRelationship
    → List ProjectedRelationship
break_first peer own_starter_id f [] = []
break_first peer own_starter_id f (current ∷ projected) =
    if same_key peer own_starter_id current
    then f current ∷ projected
    else current ∷ break_first peer own_starter_id f projected

abbrev pub project_kind :
    PubKey
    → Option PubKey
    → List InvitationRecord
    → Event
    → EventKind
    → List ProjectedRelationship
    → List ProjectedRelationship
project_kind owner local_transport records event relationship_established projected =
    elim (parse_established_fact event.payload) [
      | none ↦ projected
      | some fact ↦ establish_fact owner local_transport records event.timestamp fact projected
    ]
project_kind owner local_transport records event relationship_broken projected =
    elim (relationship_broken_from_bytes event.payload) [
      | err _ ↦ projected
      | ok broken ↦
          break_first broken.peer_pubkey broken.own_starter_id
            (apply_break owner local_transport event.signer event.timestamp broken) projected
    ]
project_kind owner local_transport records event _ projected = projected

unfoldable pub project_events :
    PubKey
    → Option PubKey
    → List InvitationRecord
    → List ProjectedRelationship
    → List Event
    → List ProjectedRelationship
project_events owner local_transport records projected [] = projected
project_events owner local_transport records projected (event ∷ events) =
    project_events owner local_transport records
      (project_kind owner local_transport records event event.kind projected) events

unfoldable pub projected_relationships : Ledger → Option PubKey → List ProjectedRelationship
projected_relationships ledger local_transport =
    project_events ledger.owner local_transport (invitations_with_status ledger) [] ledger.events
