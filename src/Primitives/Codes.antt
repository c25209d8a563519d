-- ===== src/Primitives/Codes.antt =====
-- The one-byte codes of starter kinds and networks.
use hivra_app.Prelude.{ℕ, ◌≡◌, ◌↔◌, ◌<◌, some, arith}
use hivra_app.Primitives.{
  StarterKind, kind_to_byte, kind_from_u8, Network, network_to_byte, network_from_u8,
}

pub kind_from_u8-to_byte : (k : StarterKind) → kind_from_u8 (kind_to_byte k) ≡ some k
unfolding kind_from_u8 kind_to_byte
kind_from_u8-to_byte k = ground arith

-- A byte is the code of a kind exactly when the kind is what it decodes to.
pub kind_from_u8_iff :
    (value : ℕ) (k : StarterKind) → (kind_from_u8 value ≡ some k) ↔ (value ≡ kind_to_byte k)
unfolding kind_from_u8 kind_to_byte
kind_from_u8_iff value k = ground arith

pub kind_to_byte-lt : (k : StarterKind) → kind_to_byte k < 5
unfolding kind_to_byte
kind_to_byte-lt k = ground arith

pub network_from_u8_iff :
    (value : ℕ) (n : Network) → (network_from_u8 value ≡ some n) ↔ (value ≡ network_to_byte n)
unfolding network_from_u8 network_to_byte
network_from_u8_iff value n = ground arith
