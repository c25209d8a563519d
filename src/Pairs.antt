-- ===== src/Pairs.antt =====
-- core/hivra-core/src/pair.rs and capsule.rs: what a capsule has with each peer, and its state for
-- the outside.
pub mod Capsules
pub mod Peers
mod Examples
use hivra_app.Prelude.{
  ℕ, ◌+◌, Bool, true, false, not, ◌&&◌, ◌||◌, Option, none, some, List, [], ◌∷◌, ◌++◌, ltb, ◌==◌,
  if◌then◌else◌, length, map, any, find, push_unique, sort_by, bytes_le, same, ℕ_discrete,
}
use mathlib.Core.Option
use text.Mathlib.Text
use hivra_app.Primitives.{Bytes, Bytes-discrete, bytes_eq, PubKey}
use hivra_app.Ledger.{Ledger}
use hivra_app.Invitations.{
  InvitationStatus, pending, accepted, rejected, expired, InvitationDirection, incoming, outgoing,
  InvitationRecord,
}
use hivra_app.Invitations.Records.{invitations_with_status}
use hivra_app.Relationships.View.{RelationshipCurrentItem, relationship_current_view_v1}
use Prim.Native.String.{String}

pub record PairRelationship : Type 0 where
  pub relationship_kind : ℕ
  pub starter_pair : Bytes × Bytes

unfoldable pub PairRelationship-discrete : Discrete PairRelationship
unfolding ℕ_discrete
PairRelationship-discrete = hlevel ℕ_discrete

pub record PairBlocker : Type 0 where
  pub code : String
  pub subject_id : Bytes

pub record PairViewItem : Type 0 where
  pub local_identity : Bytes
  pub peer_identity : Bytes
  pub finalized_invitation_count : ℕ
  pub active_relationships : List PairRelationship
  pub blockers : List PairBlocker

pub record PairView : Type 0 where
  pub schema : String
  pub version : ℕ
  pub ledger_version : ℕ
  pub pairs : List PairViewItem

pub record PairAccumulator : Type 0 where
  pub rooted : Bool
  pub finalized_invitation_count : ℕ
  pub active_relationships : List PairRelationship
  pub pending_invitations : List Bytes
  pub pending_remote_breaks : List Bytes
  pub broken_relationships : List Bytes

abbrev pub Pairs : Type 0
Pairs = List (Bytes × PairAccumulator)

unfoldable pub default_accumulator : PairAccumulator
default_accumulator = record {
  rooted = false;
  finalized_invitation_count = 0;
  active_relationships = [];
  pending_invitations = [];
  pending_remote_breaks = [];
  broken_relationships = [];
}

-- `accumulator_for` and a change of the accumulator that it finds or adds.
unfoldable pub update_pair : (PairAccumulator → PairAccumulator) → Bytes → Pairs → Pairs
update_pair f peer [] = (peer, f default_accumulator) ∷ []
update_pair f peer ((identity, pair) ∷ pairs) =
    if bytes_eq identity peer
    then (identity, f pair) ∷ pairs
    else (identity, pair) ∷ update_pair f peer pairs

abbrev pub push_key : List Bytes → Bytes → List Bytes
push_key values value = push_unique Bytes-discrete values value

abbrev pub is_status : String → RelationshipCurrentItem → Bool
is_status name r = Text.◌==◌ r.status name

-- `[a, b].sort()`
abbrev pub sorted_pair : Bytes → Bytes → Bytes × Bytes
sorted_pair a b = if bytes_le a b then (a, b) else (b, a)

-- The fact of a relationship that is active, or waits for the peer's break.
abbrev pub add_fact : RelationshipCurrentItem → PairAccumulator → PairAccumulator
add_fact r pair = record pair {
  active_relationships = push_unique PairRelationship-discrete pair.active_relationships (record {
    relationship_kind = r.starter_kind;
    starter_pair = sorted_pair r.own_starter_id r.peer_starter_id;
  });
  pending_remote_breaks =
      if is_status "pending_remote_break" r
      then push_key pair.pending_remote_breaks r.own_starter_id
      else pair.pending_remote_breaks;
}

abbrev pub is_rooted : Option PubKey → Bool
is_rooted none = false
is_rooted (some root) = true

-- One round of the loop over the relationships.
unfoldable pub add_relationship : RelationshipCurrentItem → PairAccumulator → PairAccumulator
add_relationship r pair =
    let marked = record pair { rooted = pair.rooted || is_rooted r.peer_root_pubkey } in
    if is_status "active" r || is_status "pending_remote_break" r
    then add_fact r marked
    else if is_status "broken" r
    then record marked {
      broken_relationships = push_key marked.broken_relationships r.own_starter_id;
    }
    else marked

unfoldable pub add_relationships : Pairs → List RelationshipCurrentItem → Pairs
add_relationships pairs [] = pairs
add_relationships pairs (r ∷ rs) =
    add_relationships (update_pair (add_relationship r) r.peer_identity pairs) rs

abbrev pub transport_identities : List RelationshipCurrentItem → List (Bytes × Bytes)
transport_identities rs = map (λ r. (r.peer_pubkey, r.peer_identity)) rs

abbrev pub accepted_root : InvitationStatus → Option PubKey
accepted_root pending = none
accepted_root (accepted _ _ accepter_root_pubkey) = accepter_root_pubkey
accepted_root (rejected _) = none
accepted_root expired = none

-- The transport key and the root of the invitation's peer.
abbrev pub peer_keys : InvitationRecord → InvitationDirection → PubKey × Option PubKey
peer_keys r incoming = (r.sender_transport_pubkey, r.sender_root_pubkey)
peer_keys r outgoing = (r.recipient_pubkey, accepted_root r.status)

-- The root, else the identity of the transport key, else the transport key.
unfoldable pub invitation_peer : List (Bytes × Bytes) → PubKey × Option PubKey → Bytes
invitation_peer identities (transport, some root) = root
invitation_peer identities (transport, none) =
    Option.get_or (Option.map (λ p. p.1) (find (λ p. bytes_eq p.0 transport) identities)) transport

abbrev pub is_pending : InvitationStatus → Bool
is_pending pending = true
is_pending (accepted _ _ _) = false
is_pending (rejected _) = false
is_pending expired = false

-- One round of the loop over the invitations, for the pair of its peer.
unfoldable pub add_invitation :
    List (Bytes × Bytes) → InvitationRecord → PairAccumulator → PairAccumulator
add_invitation identities r pair =
    let keys = peer_keys r r.direction in
    let marked = record pair {
      rooted =
          pair.rooted
          || (is_rooted keys.1
              || any (λ p. bytes_eq p.0 keys.0 && not (bytes_eq p.1 keys.0)) identities);
    } in
    if is_pending r.status
    then record marked { pending_invitations = push_key marked.pending_invitations r.invitation_id }
    else record marked { finalized_invitation_count = marked.finalized_invitation_count + 1 }

-- Whether the identity is one of the capsule's own keys.
abbrev pub is_own : PubKey → Option PubKey → Bytes → Bool
is_own owner none identity = bytes_eq identity owner
is_own owner (some transport) identity = bytes_eq identity owner || bytes_eq identity transport

unfoldable pub add_invitations :
    PubKey → Option PubKey → List (Bytes × Bytes) → Pairs → List InvitationRecord → Pairs
add_invitations owner local_transport identities pairs [] = pairs
add_invitations owner local_transport identities pairs (r ∷ rs) =
    let peer = invitation_peer identities (peer_keys r r.direction) in
    add_invitations owner local_transport identities
      (if is_own owner local_transport peer
        then pairs
        else update_pair (add_invitation identities r) peer pairs)
      rs

-- The order of a pair's relationships: by kind, then by starters.
abbrev pub fact_le : PairRelationship → PairRelationship → Bool
fact_le a b =
    if ltb a.relationship_kind b.relationship_kind
    then true
    else if ltb b.relationship_kind a.relationship_kind
    then false
    else if not (bytes_le b.starter_pair.0 a.starter_pair.0)
    then true
    else if not (bytes_le a.starter_pair.0 b.starter_pair.0)
    then false
    else bytes_le a.starter_pair.1 b.starter_pair.1

abbrev pub blocked_by : String → List Bytes → List PairBlocker
blocked_by code ids = map (λ id. record { code = code; subject_id = id }) (sort_by bytes_le ids)

-- The blockers of a pair without an active relationship.
abbrev pub inactive_blockers : Bytes → PairAccumulator → List PairBlocker
inactive_blockers peer pair =
    blocked_by "relationship_broken" pair.broken_relationships
    ++ (record { code = "no_active_relationship"; subject_id = peer } ∷ [])

unfoldable pub pair_item : PubKey → Option PubKey → Bytes × PairAccumulator → PairViewItem
pair_item owner local_transport (peer, pair) = record {
  local_identity = if pair.rooted then owner else Option.get_or local_transport owner;
  peer_identity = peer;
  finalized_invitation_count = pair.finalized_invitation_count;
  active_relationships = sort_by fact_le pair.active_relationships;
  blockers =
      blocked_by "pending_invitation" pair.pending_invitations
      ++ (blocked_by "pending_remote_break" pair.pending_remote_breaks
          ++ (if length pair.active_relationships == 0 then inactive_blockers peer pair else []));
}

abbrev pub peer_le : Bytes × PairAccumulator → Bytes × PairAccumulator → Bool
peer_le a b = bytes_le a.0 b.0

unfoldable pub gathered_pairs : Ledger → Option PubKey → Pairs
gathered_pairs ledger local_transport =
    let relationships = (relationship_current_view_v1 ledger local_transport).relationships in
    add_invitations ledger.owner local_transport (transport_identities relationships)
      (add_relationships [] relationships) (invitations_with_status ledger)

unfoldable pub pair_view_v1 : Ledger → Option PubKey → PairView
pair_view_v1 ledger local_transport = record {
  schema = "hivra.pair_view";
  version = 1;
  ledger_version = length ledger.events;
  pairs =
      map (pair_item ledger.owner local_transport)
        (sort_by peer_le (gathered_pairs ledger local_transport));
}
