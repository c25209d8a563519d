-- ===== src/Starters/Identity.antt =====
-- What the bytes behind a starter's id determine.
use hivra_app.Prelude.{◌≡◌, ◌∙◌, sym, ◌∷◌, arith, append-cancel}
use hivra_app.Primitives.{
  Bytes, IsArray, PubKey, StarterKind, kind_to_byte, Network, network_to_byte,
}
use hivra_app.Starters.{derive_preimage}

kind_injective : (j k : StarterKind) → kind_to_byte j ≡ kind_to_byte k → j ≡ k
unfolding kind_to_byte
kind_injective j k e = ground arith

network_injective : (m n : Network) → network_to_byte m ≡ network_to_byte n → m ≡ n
unfolding network_to_byte
network_injective m n e = ground arith

-- With owners of 32 bytes, the bytes that `derive_id` hashes determine the owner, the network, the
-- kind and the nonce.
pub derive_preimage-injective :
    (owner owner' : PubKey) (k k' : StarterKind) (n n' : Network) (nonce nonce' : Bytes)
    → IsArray 32 owner
    → IsArray 32 owner'
    → derive_preimage owner k n nonce ≡ derive_preimage owner' k' n' nonce'
    → (owner ≡ owner') × (k ≡ k') × (n ≡ n') × (nonce ≡ nonce')
unfolding derive_preimage
derive_preimage-injective owner owner' k k' n n' nonce nonce' h h' e =
    let (same_owner, rest) =
      append-cancel owner owner' (network_to_byte n ∷ kind_to_byte k ∷ nonce)
        (network_to_byte n' ∷ kind_to_byte k' ∷ nonce') (h ∙ sym h') e in
    (
      same_owner,
      kind_injective k k' (ground arith),
      network_injective n n' (ground arith),
      ground arith,
    )
