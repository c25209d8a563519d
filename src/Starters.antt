-- ===== src/Starters.antt =====
-- core/hivra-core/src/starter.rs: the starter entity and its derived id.
pub mod Identity
mod Examples
use hivra_app.Prelude.{Bool, true, false, Option, [], ◌∷◌, ◌++◌}
use hivra_app.Primitives.{
  Bytes, PubKey, StarterId, StarterKind, kind_to_byte, Network, network_to_byte, Timestamp,
}

pub data StarterState : Type 0 where
  active burned : StarterState

pub record Starter : Type 0 where
  pub id : StarterId
  pub owner : PubKey
  pub kind : StarterKind
  pub network : Network
  pub origin_invitation : Option Bytes
  pub created_at : Timestamp
  pub state : StarterState

unfoldable pub new : StarterId → PubKey → StarterKind → Network → Option Bytes → Timestamp → Starter
new id owner kind network origin_invitation created_at = record {
  id = id;
  owner = owner;
  kind = kind;
  network = network;
  origin_invitation = origin_invitation;
  created_at = created_at;
  state = active;
}

-- What the hasher is fed; `kind as u8` and `network as u8` are the codes of `to_byte`.
unfoldable pub derive_preimage : PubKey → StarterKind → Network → Bytes → Bytes
derive_preimage owner_pubkey kind network creation_nonce =
    owner_pubkey ++ (network_to_byte network ∷ kind_to_byte kind ∷ creation_nonce)

module _ (sha256 : Bytes → Bytes) where
  unfoldable pub derive_id : PubKey → StarterKind → Network → Bytes → StarterId
  derive_id owner_pubkey kind network creation_nonce =
      sha256 (derive_preimage owner_pubkey kind network creation_nonce)

unfoldable pub is_active : Starter → Bool
is_active starter = elim starter.state [ active ↦ true | burned ↦ false ]

unfoldable pub burn : Starter → Starter
burn starter = record starter { state = burned }
