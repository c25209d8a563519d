-- ===== src/Pairs/Peers.antt =====
-- Which peers have a pair, and in which order the pairs stand.
use hivra_app.Prelude.{
  Bool, true, false, not, ◌≡◌, refl, ap, ◌∙◌, ◌&&◌, ◌||◌, Option, List, [], ◌∷◌, arith, map, any,
  any-sort_by, All, Pairwise, Bool-cases, inl, inr, eq_of_same, sort_by, bytes_le, bytes_le_total,
  bytes_le_trans, sort_by-Ordered, sort_by-Pairwise,
}
use hivra_app.Primitives.{Bytes, Bytes-discrete, bytes_eq, PubKey}
use hivra_app.Ledger.{Ledger}
use hivra_app.Invitations.{InvitationRecord}
use hivra_app.Invitations.Records.{invitations_with_status}
use hivra_app.Relationships.View.{RelationshipCurrentItem, relationship_current_view_v1}
use hivra_app.Pairs.{
  PairAccumulator, PairViewItem, Pairs, update_pair, add_relationship, add_relationships,
  transport_identities, peer_keys, invitation_peer, is_own, add_invitation, add_invitations,
  peer_le, pair_item, gathered_pairs, pair_view_v1,
}

bytes_eq_sym : (a b : Bytes) → bytes_eq a b ≡ false → bytes_eq b a ≡ false
bytes_eq_sym a b h = ground arith

bytes_eq_chain : (a b c : Bytes) → bytes_eq a b ≡ true → bytes_eq a c ≡ bytes_eq b c
bytes_eq_chain a b c h = ap (λ x. bytes_eq x c) (eq_of_same Bytes-discrete a b h)

-- Whether there is a pair with the peer.
abbrev has_peer : Bytes → Pairs → Bool
has_peer peer pairs = any (λ p. bytes_eq p.0 peer) pairs

abbrev Apart : Bytes × PairAccumulator → Bytes × PairAccumulator → Type 0
Apart a b = bytes_eq a.0 b.0 ≡ false

has_peer-update_pair :
    (f : PairAccumulator → PairAccumulator) (peer other : Bytes) (pairs : Pairs)
    → has_peer other (update_pair f peer pairs) ≡ (has_peer other pairs || bytes_eq peer other)
unfolding update_pair any
has_peer-update_pair f peer other [] = ground arith
has_peer-update_pair f peer other ((identity, pair) ∷ pairs) =
    elim (Bool-cases (bytes_eq identity peer)) [
      | inl hit ↦ rw hit (ground (arith, bytes_eq_chain identity peer other hit))
      | inr miss ↦ rw miss (ground (arith, has_peer-update_pair f peer other pairs))
    ]

All-update_pair :
    (f : PairAccumulator → PairAccumulator) (identity : Bytes) (peer : Bytes) (pairs : Pairs)
    → bytes_eq identity peer ≡ false
    → All (λ p. bytes_eq identity p.0 ≡ false) pairs
    → All (λ p. bytes_eq identity p.0 ≡ false) (update_pair f peer pairs)
unfolding update_pair
All-update_pair f identity peer [] h k = (h, tt)
All-update_pair f identity peer ((other, pair) ∷ pairs) h (now, later) =
    elim (Bool-cases (bytes_eq other peer)) [
      | inl hit ↦ rw hit (now, later)
      | inr miss ↦ rw miss (now, All-update_pair f identity peer pairs h later)
    ]

update_pair-Apart :
    (f : PairAccumulator → PairAccumulator) (peer : Bytes) (pairs : Pairs)
    → Pairwise Apart pairs
    → Pairwise Apart (update_pair f peer pairs)
unfolding update_pair
update_pair-Apart f peer [] h = (tt, tt)
update_pair-Apart f peer ((identity, pair) ∷ pairs) (first, h) =
    elim (Bool-cases (bytes_eq identity peer)) [
      | inl hit ↦ rw hit (first, h)
      | inr miss ↦
          rw miss
            (All-update_pair f identity peer pairs miss first, update_pair-Apart f peer pairs h)
    ]

-- Whether a relationship, or an invitation that does not lead back to the capsule, names the peer.
abbrev pub relates_to : Bytes → List RelationshipCurrentItem → Bool
relates_to peer relationships = any (λ r. bytes_eq r.peer_identity peer) relationships

abbrev pub invites :
    PubKey → Option PubKey → List (Bytes × Bytes) → Bytes → List InvitationRecord → Bool
invites owner local_transport identities peer invitations =
    any
      (λ r.
        not (is_own owner local_transport (invitation_peer identities (peer_keys r r.direction)))
        && bytes_eq (invitation_peer identities (peer_keys r r.direction)) peer)
      invitations

has_peer-add_relationships :
    (peer : Bytes) (pairs : Pairs) (rs : List RelationshipCurrentItem)
    → has_peer peer (add_relationships pairs rs) ≡ (has_peer peer pairs || relates_to peer rs)
unfolding add_relationships any
has_peer-add_relationships peer pairs [] = ground arith
has_peer-add_relationships peer pairs (r ∷ rs) = ground (
  arith,
  has_peer-add_relationships peer (update_pair (add_relationship r) r.peer_identity pairs) rs,
  has_peer-update_pair (add_relationship r) r.peer_identity peer pairs,
)

add_relationships-Apart :
    (pairs : Pairs) (rs : List RelationshipCurrentItem)
    → Pairwise Apart pairs
    → Pairwise Apart (add_relationships pairs rs)
unfolding add_relationships
add_relationships-Apart pairs [] h = h
add_relationships-Apart pairs (r ∷ rs) h =
    add_relationships-Apart (update_pair (add_relationship r) r.peer_identity pairs) rs
      (update_pair-Apart (add_relationship r) r.peer_identity pairs h)

module _ (owner : PubKey) (local_transport : Option PubKey)
    (identities : List (Bytes × Bytes)) where
  has_peer-add_invitations :
      (peer : Bytes) (pairs : Pairs) (rs : List InvitationRecord)
      → has_peer peer (add_invitations owner local_transport identities pairs rs)
        ≡ (has_peer peer pairs || invites owner local_transport identities peer rs)
  unfolding add_invitations any
  has_peer-add_invitations peer pairs [] = ground arith
  has_peer-add_invitations peer pairs (r ∷ rs) =
      let named = invitation_peer identities (peer_keys r r.direction) in
      elim (Bool-cases (is_own owner local_transport named)) [
        | inl own ↦ rw own (has_peer-add_invitations peer pairs rs)
        | inr foreign ↦ rw foreign (
            ground (
              arith,
              has_peer-add_invitations peer (update_pair (add_invitation identities r) named pairs)
                  rs,
              has_peer-update_pair (add_invitation identities r) named peer pairs,
            ))
      ]

  add_invitations-Apart :
      (pairs : Pairs) (rs : List InvitationRecord)
      → Pairwise Apart pairs
      → Pairwise Apart (add_invitations owner local_transport identities pairs rs)
  unfolding add_invitations
  add_invitations-Apart pairs [] h = h
  add_invitations-Apart pairs (r ∷ rs) h =
      let named = invitation_peer identities (peer_keys r r.direction) in
      elim (Bool-cases (is_own owner local_transport named)) [
        | inl own ↦ rw own (add_invitations-Apart pairs rs h)
        | inr foreign ↦ rw foreign (
            add_invitations-Apart (update_pair (add_invitation identities r) named pairs) rs
              (update_pair-Apart (add_invitation identities r) named pairs h))
      ]

-- The items stand in the order of their peers' bytes, and no two have one peer.
abbrev pub PeerBefore : PairViewItem → PairViewItem → Type 0
PeerBefore a b = bytes_le a.peer_identity b.peer_identity ≡ true

abbrev pub PeerApart : PairViewItem → PairViewItem → Type 0
PeerApart a b = bytes_eq a.peer_identity b.peer_identity ≡ false

module _ (owner : PubKey) (local_transport : Option PubKey) where
  any-pair_item :
      (peer : Bytes) (pairs : Pairs)
      → any (λ item. bytes_eq item.peer_identity peer) (map (pair_item owner local_transport) pairs)
        ≡ has_peer peer pairs
  unfolding any pair_item
  any-pair_item peer [] = refl
  any-pair_item peer ((identity, pair) ∷ pairs) =
      ap (◌||◌ (bytes_eq identity peer)) (any-pair_item peer pairs)

  -- A relation between peers carries over from the pairs to their items.
  Pairwise-pair_item :
      (R : Bytes → Bytes → Type 0) (pairs : Pairs)
      → Pairwise (λ a b. R a.0 b.0) pairs
      → Pairwise
          (λ a b. R a.peer_identity b.peer_identity)
          (map (pair_item owner local_transport) pairs)
  unfolding pair_item
  Pairwise-pair_item R [] h = tt
  Pairwise-pair_item R ((identity, pair) ∷ pairs) (first, h) =
      (each identity pairs first, Pairwise-pair_item R pairs h)
    where
      each :
          (identity : Bytes) (pairs : Pairs)
          → All (λ p. R identity p.0) pairs
          → All
              (λ item. R identity item.peer_identity)
              (map (pair_item owner local_transport) pairs)
      each identity [] h = tt
      each identity ((other, pair) ∷ pairs) (now, later) = (now, each identity pairs later)

gathered_pairs-Apart :
    (ledger : Ledger) (local_transport : Option PubKey)
    → Pairwise Apart (gathered_pairs ledger local_transport)
unfolding gathered_pairs
gathered_pairs-Apart ledger local_transport =
    let relationships = (relationship_current_view_v1 ledger local_transport).relationships in
    add_invitations-Apart ledger.owner local_transport (transport_identities relationships)
      (add_relationships [] relationships) (invitations_with_status ledger)
      (add_relationships-Apart [] relationships tt)

has_peer-gathered_pairs :
    (ledger : Ledger) (local_transport : Option PubKey) (peer : Bytes)
    → let relationships = (relationship_current_view_v1 ledger local_transport).relationships in
      has_peer peer (gathered_pairs ledger local_transport) ≡ (
        relates_to peer relationships
        || invites ledger.owner local_transport
            (transport_identities relationships)
            peer
            (invitations_with_status ledger))
unfolding gathered_pairs any
has_peer-gathered_pairs ledger local_transport peer =
    rw (has_peer-add_invitations, has_peer-add_relationships) refl

-- The items of the pair view stand in the order of their peers' bytes, no two of them have the
-- same peer, and a peer has an item exactly if a listed relationship is with it, or an invitation
-- names it whose peer is none of the capsule's own keys.
pub pair_view_v1-peers :
    (ledger : Ledger) (local_transport : Option PubKey)
    → let items = (pair_view_v1 ledger local_transport).pairs in
      let relationships = (relationship_current_view_v1 ledger local_transport).relationships in
      Pairwise PeerBefore items
      × Pairwise PeerApart items
      × ((peer : Bytes)
          → any (λ item. bytes_eq item.peer_identity peer) items ≡ (
              relates_to peer relationships
              || invites ledger.owner local_transport
                  (transport_identities relationships)
                  peer
                  (invitations_with_status ledger)))
unfolding pair_view_v1
pair_view_v1-peers ledger local_transport = (
  Pairwise-pair_item ledger.owner local_transport (λ a b. bytes_le a b ≡ true)
      (sort_by peer_le gathered)
      (sort_by-Ordered peer_le (λ a b. bytes_le_total a.0 b.0) (λ a b c. bytes_le_trans a.0 b.0 c.0)
        gathered),
  Pairwise-pair_item ledger.owner local_transport (λ a b. bytes_eq a b ≡ false)
      (sort_by peer_le gathered)
      (sort_by-Pairwise peer_le Apart (λ a b. bytes_eq_sym a.0 b.0) gathered
        (gathered_pairs-Apart ledger local_transport)),
  λ peer.
      any-pair_item ledger.owner local_transport peer (sort_by peer_le gathered)
      ∙ (any-sort_by peer_le (λ p. bytes_eq p.0 peer) gathered
          ∙ has_peer-gathered_pairs ledger local_transport peer),
)
  where
    gathered : Pairs
    gathered = gathered_pairs ledger local_transport
