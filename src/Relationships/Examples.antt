-- ===== src/Relationships/Examples.antt =====
-- The relationships of a small ledger.
use hivra_app.Prelude.{
  ℕ, ◌≡◌, true, false, [], ◌∷◌, ◌++◌, length, Pairwise, List, map, any, ◌≤◌, ◌<◌, some, none,
}
use mathlib.Core.List.{Perm}
use hivra_app.Primitives.{seed, PubKey, bytes_eq}
use hivra_app.Samples.{key, signed, ledger_of}
use hivra_app.Events.{Event, relationship_established}
use hivra_app.Payloads.{RelationshipBroken}
use hivra_app.Ledger.{Ledger}
use hivra_app.Relationships.Projection.{ProjectedRelationship, apply_break, projected_relationships}
use hivra_app.Relationships.Projected.{is_local, is_peer, apply_break-authority}
use hivra_app.Relationships.View.{relationship_current_view_v1, current_item, transport_roots}
use hivra_app.Relationships.Order.{
  NotBeforeItem, Different, has_active, relationship_current_view_v1-ordered,
}

-- The relationship of two old facts, and a break by the peer.
abbrev established_old : ℕ → ℕ → Event
established_old peer at =
    signed 4 relationship_established (key peer ++ (key 3 ++ (key 6 ++ (2 ∷ [])))) at

abbrev related_ledger : Ledger
related_ledger = ledger_of (established_old 2 1 ∷ established_old 7 2 ∷ established_old 2 3 ∷ [])

relationship_current_view_v1-ordered_example :
    let view = relationship_current_view_v1 related_ledger (some (key 9)) in
    (sorted : List ProjectedRelationship) × (peers : List PubKey) × Perm sorted
      (projected_relationships related_ledger (some (key 9)))
    × (view.relationships ≡ map (current_item (transport_roots sorted)) sorted)
    × Pairwise NotBeforeItem view.relationships
    × (view.active_peer_count ≡ length peers)
    × Pairwise Different peers
    × ((peer : PubKey)
        → any (λ x. bytes_eq x peer) peers ≡ has_active (transport_roots sorted) peer sorted)
relationship_current_view_v1-ordered_example =
    relationship_current_view_v1-ordered related_ledger (some (key 9))

abbrev breaking : RelationshipBroken
breaking = record { peer_pubkey = key 2; own_starter_id = key 3; peer_root_pubkey = none }

abbrev live : ProjectedRelationship
live = record {
  peer_pubkey = key 2;
  peer_root_pubkey = none;
  own_starter_id = key 3;
  peer_starter_id = key 6;
  kind = seed;
  established_at = 1;
  is_active = true;
  has_pending_remote_break = false;
}

apply_break-authority_example :
    let r = apply_break (key 1) none (key 2) 5 breaking live in
    (5 < 1 → r ≡ live)
    × (is_local (key 1) none (key 2) ≡ false → is_peer breaking live (key 2) ≡ false → r ≡ live)
    × (1 ≤ 5
        → is_local (key 1) none (key 2) ≡ true
        → (r.is_active ≡ false) × (r.has_pending_remote_break ≡ false))
    × (1 ≤ 5
        → is_local (key 1) none (key 2) ≡ false
        → is_peer breaking live (key 2) ≡ true
        → true ≡ true
        → (r.is_active ≡ true) × (r.has_pending_remote_break ≡ true))
    × (true ≡ true → r.is_active ≡ false → is_local (key 1) none (key 2) ≡ true)
    × (r.has_pending_remote_break ≡ true
        → live.has_pending_remote_break ≡ false
        → (is_local (key 1) none (key 2) ≡ false)
          × (is_peer breaking live (key 2) ≡ true)
          × (r.is_active ≡ true))
    × (live.is_active ≡ false → live.has_pending_remote_break ≡ false → r.is_active ≡ false)
apply_break-authority_example = apply_break-authority (key 1) none (key 2) 5 breaking live
