-- ===== src/LedgerV5.antt =====
-- core/hivra-core/src/ledger_v5.rs: the anchors, entries and commitments of a continuous ledger.
use hivra_app.Prelude.{ℕ, Option, none, some, [], ◌∷◌, ◌++◌, length, replicate}
use hivra_app.Primitives.{Bytes, PubKey, Signature}
use hivra_app.Events.{Event, event_id, u64_be_bytes}

abbrev pub Commitment : Type 0
Commitment = Bytes

-- b"hivra/ledger-anchor/v5"
abbrev pub fresh_anchor_tag : Bytes
fresh_anchor_tag =
    b'h' ∷ b'i' ∷ b'v' ∷ b'r' ∷ b'a' ∷ b'/' ∷ b'l' ∷ b'e' ∷ b'd' ∷ b'g' ∷ b'e' ∷ b'r' ∷ b'-' ∷ b'a'
    ∷ b'n' ∷ b'c' ∷ b'h' ∷ b'o' ∷ b'r' ∷ b'/' ∷ b'v' ∷ b'5' ∷ []

-- b"hivra/legacy-v4-anchor/v5"
abbrev pub legacy_anchor_tag : Bytes
legacy_anchor_tag =
    b'h' ∷ b'i' ∷ b'v' ∷ b'r' ∷ b'a' ∷ b'/' ∷ b'l' ∷ b'e' ∷ b'g' ∷ b'a' ∷ b'c' ∷ b'y' ∷ b'-' ∷ b'v'
    ∷ b'4' ∷ b'-' ∷ b'a' ∷ b'n' ∷ b'c' ∷ b'h' ∷ b'o' ∷ b'r' ∷ b'/' ∷ b'v' ∷ b'5' ∷ []

-- b"hivra/legacy-v4-snapshot/v1"
abbrev pub legacy_snapshot_tag : Bytes
legacy_snapshot_tag =
    b'h' ∷ b'i' ∷ b'v' ∷ b'r' ∷ b'a' ∷ b'/' ∷ b'l' ∷ b'e' ∷ b'g' ∷ b'a' ∷ b'c' ∷ b'y' ∷ b'-' ∷ b'v'
    ∷ b'4' ∷ b'-' ∷ b's' ∷ b'n' ∷ b'a' ∷ b'p' ∷ b's' ∷ b'h' ∷ b'o' ∷ b't' ∷ b'/' ∷ b'v' ∷ b'1' ∷ []

-- b"hivra/ledger-entry/v5"
abbrev pub ledger_entry_tag : Bytes
ledger_entry_tag =
    b'h' ∷ b'i' ∷ b'v' ∷ b'r' ∷ b'a' ∷ b'/' ∷ b'l' ∷ b'e' ∷ b'd' ∷ b'g' ∷ b'e' ∷ b'r' ∷ b'-' ∷ b'e'
    ∷ b'n' ∷ b't' ∷ b'r' ∷ b'y' ∷ b'/' ∷ b'v' ∷ b'5' ∷ []

pub data LedgerAnchorV5 : Type 0 where
  fresh : (owner : PubKey) → LedgerAnchorV5
  legacy_v4 : (owner : PubKey) (snapshot : Commitment) (signature : Signature) → LedgerAnchorV5

unfoldable pub anchor_owner : LedgerAnchorV5 → PubKey
anchor_owner (fresh owner) = owner
anchor_owner (legacy_v4 owner _ _) = owner

unfoldable pub anchor_signature : LedgerAnchorV5 → Option Signature
anchor_signature (fresh _) = none
anchor_signature (legacy_v4 _ _ signature) = some signature

pub record LedgerEntryV5 : Type 0 where
  pub owner : PubKey
  pub sequence : ℕ
  pub previous_commitment : Commitment
  pub event : Event
  pub signature : Signature

unfoldable pub unsigned : PubKey → ℕ → Commitment → Event → LedgerEntryV5
unsigned owner sequence previous_commitment event = record {
  owner = owner;
  sequence = sequence;
  previous_commitment = previous_commitment;
  event = event;
  signature = replicate 64 0;
}

unfoldable pub with_signature : LedgerEntryV5 → Signature → LedgerEntryV5
with_signature entry signature = record entry { signature = signature }

pub data LedgerV5Error : Type 0 where
  not_continuous_ledger anchor_owner_mismatch entry_owner_mismatch : LedgerV5Error
  invalid_sequence invalid_previous_commitment duplicate_domain_event : LedgerV5Error
  wrong_event_version : LedgerV5Error

module _ (sha256 : Bytes → Bytes) where
  unfoldable pub legacy_snapshot_commitment : Bytes → Commitment
  legacy_snapshot_commitment canonical =
      sha256 (legacy_snapshot_tag ++ (u64_be_bytes (length canonical) ++ canonical))

  unfoldable pub anchor_commitment : LedgerAnchorV5 → Commitment
  anchor_commitment (fresh owner) = sha256 (fresh_anchor_tag ++ owner)
  anchor_commitment (legacy_v4 owner snapshot _) = sha256 (legacy_anchor_tag ++ (owner ++ snapshot))

  unfoldable pub entry_commitment : LedgerEntryV5 → Commitment
  entry_commitment e = sha256 (
      ledger_entry_tag
      ++ (e.owner
          ++ (u64_be_bytes e.sequence ++ (e.previous_commitment ++ event_id sha256 e.event))))
