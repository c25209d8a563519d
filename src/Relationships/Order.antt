-- ===== src/Relationships/Order.antt =====
-- The order and the number of the relationships in the view.
use mathlib.Core.List.{Perm}
use mathlib.Core.List.Perm
use hivra_app.Prelude.{
  ◌≤◌, ◌≡◌, refl, ap, Bool, false, ◌&&◌, ◌||◌, Option, List, [], ◌∷◌, arith, All, Pairwise,
  Pairwise-append_one, Bool-cases, inl, inr, leb, length, map, any, push_unique,
  any-same-push_unique,
}
use hivra_app.Primitives.{Bytes-discrete, bytes_eq, PubKey}
use hivra_app.Ledger.{Ledger}
use hivra_app.Relationships.Projection.{ProjectedRelationship, projected_relationships}
use hivra_app.Relationships.View.{
  RelationshipCurrentItem, insert_latest, sort_latest, transport_roots, active_peers, peer_identity,
  current_item, current_items, relationship_current_view_v1,
}

-- `b` is not younger than `a`.
abbrev pub NotBefore : ProjectedRelationship → ProjectedRelationship → Type 0
NotBefore a b = b.established_at ≤ a.established_at

abbrev pub NotBeforeItem : RelationshipCurrentItem → RelationshipCurrentItem → Type 0
NotBeforeItem a b = b.established_at ≤ a.established_at

All-older :
    (r x : ProjectedRelationship) (xs : List ProjectedRelationship)
    → x.established_at ≤ r.established_at
    → All (NotBefore x) xs
    → All (NotBefore r) xs
All-older r x [] h k = tt
All-older r x (y ∷ xs) h (now, later) = (omega arith, All-older r x xs h later)

All-insert_latest :
    (P : ProjectedRelationship → Type 0) (r : ProjectedRelationship)
    (xs : List ProjectedRelationship)
    → P r
    → All P xs
    → All P (insert_latest r xs)
unfolding insert_latest
All-insert_latest P r [] h k = (h, tt)
All-insert_latest P r (x ∷ xs) h (now, later) =
    elim (Bool-cases (leb x.established_at r.established_at)) [
      | inl here ↦ rw here (h, (now, later))
      | inr on ↦ rw on (now, All-insert_latest P r xs h later)
    ]

insert_latest-ordered :
    (r : ProjectedRelationship) (xs : List ProjectedRelationship)
    → Pairwise NotBefore xs
    → Pairwise NotBefore (insert_latest r xs)
unfolding insert_latest
insert_latest-ordered r [] h = (tt, tt)
insert_latest-ordered r (x ∷ xs) (older, h) =
    elim (Bool-cases (leb x.established_at r.established_at)) [
      | inl here ↦
          let fits : x.established_at ≤ r.established_at = ground arith in
          rw here ((fits, All-older r x xs fits older), (older, h))
      | inr on ↦
          let fits : r.established_at ≤ x.established_at = ground arith in
          rw on (All-insert_latest (NotBefore x) r xs fits older, insert_latest-ordered r xs h)
    ]

sort_latest-ordered : (rs : List ProjectedRelationship) → Pairwise NotBefore (sort_latest rs)
unfolding sort_latest
sort_latest-ordered [] = tt
sort_latest-ordered (r ∷ rs) = insert_latest-ordered r (sort_latest rs) (sort_latest-ordered rs)

insert_latest-Perm :
    (r : ProjectedRelationship) (xs : List ProjectedRelationship)
    → Perm (insert_latest r xs) (r ∷ xs)
unfolding insert_latest
insert_latest-Perm r [] = Perm.refl (r ∷ [])
insert_latest-Perm r (x ∷ xs) = elim (Bool-cases (leb x.established_at r.established_at)) [
  | inl here ↦ rw here (Perm.refl (r ∷ x ∷ xs))
  | inr on ↦ rw on (Perm.trans (Perm.cons x (insert_latest-Perm r xs)) (Perm.swap r x xs))
]

sort_latest-Perm : (rs : List ProjectedRelationship) → Perm (sort_latest rs) rs
unfolding sort_latest
sort_latest-Perm [] = Perm.refl []
sort_latest-Perm (r ∷ rs) =
    Perm.trans (insert_latest-Perm r (sort_latest rs)) (Perm.cons r (sort_latest-Perm rs))

current_items-map :
    (roots : List (PubKey × PubKey)) (rs : List ProjectedRelationship)
    → current_items roots rs ≡ map (current_item roots) rs
unfolding current_items
current_items-map roots [] = refl
current_items-map roots (r ∷ rs) = ap (◌∷◌ (current_item roots r)) (current_items-map roots rs)

items-ordered :
    (roots : List (PubKey × PubKey)) (rs : List ProjectedRelationship)
    → Pairwise NotBefore rs
    → Pairwise NotBeforeItem (current_items roots rs)
unfolding current_items current_item
items-ordered roots [] h = tt
items-ordered roots (r ∷ rs) (older, h) = (each r rs older, items-ordered roots rs h)
  where
    each :
        (r : ProjectedRelationship) (rs : List ProjectedRelationship)
        → All (NotBefore r) rs
        → All (NotBeforeItem (current_item roots r)) (current_items roots rs)
    each r [] h = tt
    each r (x ∷ rs) (now, later) = (now, each r rs later)

abbrev pub Different : PubKey → PubKey → Type 0
Different a b = bytes_eq a b ≡ false

none_equal :
    (peers : List PubKey) (peer : PubKey)
    → any (λ x. bytes_eq x peer) peers ≡ false
    → All (λ x. Different x peer) peers
unfolding any
none_equal [] peer h = tt
none_equal (x ∷ peers) peer h = (ground arith, none_equal peers peer (ground arith))

push_unique-Different :
    (peers : List PubKey) (peer : PubKey)
    → Pairwise Different peers
    → Pairwise Different (push_unique Bytes-discrete peers peer)
unfolding push_unique
push_unique-Different peers peer h = elim (Bool-cases (any (λ x. bytes_eq x peer) peers)) [
  | inl seen ↦ rw seen h
  | inr new ↦ rw new (Pairwise-append_one Different peers peer h (none_equal peers peer new))
]

active_peers-Different :
    (roots : List (PubKey × PubKey)) (peers : List PubKey) (rs : List ProjectedRelationship)
    → Pairwise Different peers
    → Pairwise Different (active_peers roots peers rs)
unfolding active_peers peer_identity
active_peers-Different roots peers [] h = h
active_peers-Different roots peers (r ∷ rs) h = elim (Bool-cases r.is_active) [
  | inl live ↦ rw live (
      active_peers-Different roots (push_unique Bytes-discrete peers (peer_identity roots r)) rs
        (push_unique-Different peers (peer_identity roots r) h))
  | inr gone ↦ rw gone (active_peers-Different roots peers rs h)
]

-- Whether an active relationship is with the peer.
abbrev pub has_active : List (PubKey × PubKey) → PubKey → List ProjectedRelationship → Bool
has_active roots peer rs = any (λ r. r.is_active && bytes_eq (peer_identity roots r) peer) rs

any-active_peers :
    (roots : List (PubKey × PubKey)) (peers : List PubKey) (rs : List ProjectedRelationship)
    (peer : PubKey)
    → any (λ x. bytes_eq x peer) (active_peers roots peers rs)
      ≡ (any (λ x. bytes_eq x peer) peers || has_active roots peer rs)
unfolding active_peers any peer_identity
any-active_peers roots peers [] peer = ground arith
any-active_peers roots peers (r ∷ rs) peer = elim (Bool-cases r.is_active) [
  | inl live ↦ rw live (
      ground (
        arith,
        any-active_peers roots (push_unique Bytes-discrete peers (peer_identity roots r)) rs peer,
        any-same-push_unique Bytes-discrete peers (peer_identity roots r) peer,
      ))
  | inr gone ↦ rw gone (any-active_peers roots peers rs peer)
]

-- The view lists the projected relationships, each as often as it is projected, the latest
-- established first, every one with the identity of its peer and its status; and it counts the
-- peers of the active ones: the count is the length of a list of different identities, which are
-- exactly those of the peers of active relationships.
pub relationship_current_view_v1-ordered :
    (ledger : Ledger) (local_transport : Option PubKey)
    → let view = relationship_current_view_v1 ledger local_transport in
      (sorted : List ProjectedRelationship) × (peers : List PubKey) × Perm sorted
        (projected_relationships ledger local_transport)
      × (view.relationships ≡ map (current_item (transport_roots sorted)) sorted)
      × Pairwise NotBeforeItem view.relationships
      × (view.active_peer_count ≡ length peers)
      × Pairwise Different peers
      × ((peer : PubKey)
          → any (λ x. bytes_eq x peer) peers ≡ has_active (transport_roots sorted) peer sorted)
unfolding relationship_current_view_v1 any
relationship_current_view_v1-ordered ledger local_transport = (
  sorted,
  active_peers roots [] sorted,
  sort_latest-Perm projected,
  current_items-map roots sorted,
  items-ordered roots sorted (sort_latest-ordered projected),
  refl,
  active_peers-Different roots [] sorted tt,
  any-active_peers roots [] sorted,
)
  where
    projected : List ProjectedRelationship
    projected = projected_relationships ledger local_transport

    sorted : List ProjectedRelationship
    sorted = sort_latest projected

    roots : List (PubKey × PubKey)
    roots = transport_roots sorted
