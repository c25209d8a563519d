-- ===== src/Relationships/Projected.antt =====
-- What holds of the relationships that a ledger projects.
use hivra_app.Relationships.Apart.{Apart}
use hivra_app.Prelude.{
  ◌≡◌, Bool, true, false, ◌&&◌, ◌||◌, Option, some, List, arith, All, Pairwise, ◌<◌, ◌≤◌,
}
use hivra_app.Primitives.{bytes_eq, option_eq, PubKey, Timestamp}
use hivra_app.Payloads.{RelationshipBroken}
use hivra_app.Ledger.{Ledger}
use hivra_app.Relationships.Projection.{ProjectedRelationship, is_self, apply_break}

-- What the loop keeps of each entry.
pub record IsProjected (owner : PubKey) (local_transport : Option PubKey)
    (r : ProjectedRelationship) : Type 0 where
  pub another : is_self owner local_transport r ≡ false
  pub broken_by_peer : r.has_pending_remote_break ≡ true → r.is_active ≡ true

-- The key that signs counts as the owner's or the peer's.
abbrev pub is_local : PubKey → Option PubKey → PubKey → Bool
is_local owner local_transport signer =
    bytes_eq signer owner || option_eq local_transport (some signer)

abbrev pub is_peer : RelationshipBroken → ProjectedRelationship → PubKey → Bool
is_peer broken r signer =
    bytes_eq signer r.peer_pubkey
    || (option_eq broken.peer_root_pubkey (some signer)
        && option_eq r.peer_root_pubkey (some signer))

-- A break that is older than the relationship, or that neither the capsule (its owner or its own
-- transport key) nor the peer signed, changes nothing. Any other break by the capsule ends the
-- relationship, which then waits for nothing; any other break by the peer leaves an active
-- relationship active and waiting for the owner's break. Only the capsule ends an active
-- relationship, only a break by the peer makes one wait, and none revives a relationship that is
-- broken and not waiting.
pub apply_break-authority :
    (owner : PubKey) (local_transport : Option PubKey) (signer : PubKey) (at : Timestamp)
    (broken : RelationshipBroken) (r : ProjectedRelationship)
    → let r' = apply_break owner local_transport signer at broken r in
      (at < r.established_at → r' ≡ r)
      × (is_local owner local_transport signer ≡ false → is_peer broken r signer ≡ false → r' ≡ r)
      × (r.established_at ≤ at
          → is_local owner local_transport signer ≡ true
          → (r'.is_active ≡ false) × (r'.has_pending_remote_break ≡ false))
      × (r.established_at ≤ at
          → is_local owner local_transport signer ≡ false
          → is_peer broken r signer ≡ true
          → r.is_active ≡ true
          → (r'.is_active ≡ true) × (r'.has_pending_remote_break ≡ true))
      × (r.is_active ≡ true → r'.is_active ≡ false → is_local owner local_transport signer ≡ true)
      × (r'.has_pending_remote_break ≡ true
          → r.has_pending_remote_break ≡ false
          → (is_local owner local_transport signer ≡ false)
            × (is_peer broken r signer ≡ true)
            × (r'.is_active ≡ true))
      × (r.is_active ≡ false → r.has_pending_remote_break ≡ false → r'.is_active ≡ false)
unfolding apply_break
apply_break-authority owner local_transport signer at broken r = ground arith

-- What the loop keeps of the list.
abbrev pub AreProjected : PubKey → Option PubKey → List ProjectedRelationship → Type 0
AreProjected owner local_transport rs =
    Pairwise Apart rs × All (IsProjected owner local_transport) rs
