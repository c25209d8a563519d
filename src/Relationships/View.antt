-- ===== src/Relationships/View.antt =====
-- The end of `relationship_current_view_v1` (relationship.rs): the sorted relationships with the
-- identities of their peers. `sort_by` of Rust's slices is a stable sort.
use hivra_app.Prelude.{
  ℕ, Option, none, some, List, [], ◌∷◌, if◌then◌else◌, leb, length, push_unique,
}
use hivra_app.Primitives.{Bytes, Bytes-discrete, bytes_eq, PubKey, kind_to_byte}
use hivra_app.Ledger.{Ledger}
use hivra_app.Relationships.Projection.{ProjectedRelationship, projected_relationships}
use Prim.Native.String.{String}

pub record RelationshipCurrentItem : Type 0 where
  pub peer_pubkey : Bytes
  pub peer_root_pubkey : Option Bytes
  pub peer_identity : Bytes
  pub own_starter_id : Bytes
  pub peer_starter_id : Bytes
  pub starter_kind : ℕ
  pub established_at : ℕ
  pub status : String

pub record RelationshipCurrentView : Type 0 where
  pub schema : String
  pub version : ℕ
  pub ledger_version : ℕ
  pub active_peer_count : ℕ
  pub relationships : List RelationshipCurrentItem

-- An entry before the first one that is not younger.
unfoldable pub insert_latest :
    ProjectedRelationship → List ProjectedRelationship → List ProjectedRelationship
insert_latest r [] = r ∷ []
insert_latest r (x ∷ xs) =
    if leb x.established_at r.established_at then r ∷ x ∷ xs else x ∷ insert_latest r xs

-- The latest first, entries of one time in their order.
unfoldable pub sort_latest : List ProjectedRelationship → List ProjectedRelationship
sort_latest [] = []
sort_latest (r ∷ rs) = insert_latest r (sort_latest rs)

unfoldable pub transport_roots : List ProjectedRelationship → List (PubKey × PubKey)
transport_roots [] = []
transport_roots (r ∷ rs) = elim r.peer_root_pubkey [
  | none ↦ transport_roots rs
  | some root ↦ (r.peer_pubkey, root) ∷ transport_roots rs
]

unfoldable pub root_of : List (PubKey × PubKey) → PubKey → Option PubKey
root_of [] peer = none
root_of ((transport, root) ∷ roots) peer =
    if bytes_eq transport peer then some root else root_of roots peer

abbrev pub or_else : Option PubKey → Option PubKey → PubKey → PubKey
or_else (some root) other peer = root
or_else none (some root) peer = root
or_else none none peer = peer

unfoldable pub peer_identity : List (PubKey × PubKey) → ProjectedRelationship → PubKey
peer_identity roots r = or_else r.peer_root_pubkey (root_of roots r.peer_pubkey) r.peer_pubkey

-- `active_peers` after the loop.
unfoldable pub active_peers :
    List (PubKey × PubKey) → List PubKey → List ProjectedRelationship → List PubKey
active_peers roots peers [] = peers
active_peers roots peers (r ∷ rs) =
    active_peers roots
      (if r.is_active then push_unique Bytes-discrete peers (peer_identity roots r) else peers) rs

unfoldable pub current_item :
    List (PubKey × PubKey) → ProjectedRelationship → RelationshipCurrentItem
current_item roots r = record {
  peer_pubkey = r.peer_pubkey;
  peer_root_pubkey = r.peer_root_pubkey;
  peer_identity = peer_identity roots r;
  own_starter_id = r.own_starter_id;
  peer_starter_id = r.peer_starter_id;
  starter_kind = kind_to_byte r.kind;
  established_at = r.established_at;
  status =
      if r.has_pending_remote_break
      then "pending_remote_break"
      else if r.is_active
      then "active"
      else "broken";
}

unfoldable pub current_items :
    List (PubKey × PubKey) → List ProjectedRelationship → List RelationshipCurrentItem
current_items roots [] = []
current_items roots (r ∷ rs) = current_item roots r ∷ current_items roots rs

unfoldable pub relationship_current_view_v1 : Ledger → Option PubKey → RelationshipCurrentView
relationship_current_view_v1 ledger local_transport =
    let projected = sort_latest (projected_relationships ledger local_transport) in
    let roots = transport_roots projected in
    record {
      schema = "hivra.relationship_current_view";
      version = 1;
      ledger_version = length ledger.events;
      active_peer_count = length (active_peers roots [] projected);
      relationships = current_items roots projected;
    }
