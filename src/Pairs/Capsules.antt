-- ===== src/Pairs/Capsules.antt =====
-- core/hivra-core/src/capsule.rs: the state of a capsule for the outside.
use hivra_app.Prelude.{ℕ, ◌%◌, ◌^◌, Option, none, List, ltb, if◌then◌else◌, length, map}
use mathlib.Core.Option
use hivra_app.Primitives.{Bytes, PubKey, Network, network_to_byte, kind_to_byte}
use hivra_app.LedgerV5.{Commitment}
use hivra_app.Ledger.{Ledger, head_commitment_v5}
use hivra_app.Slots.Projection.{from_ledger, starter_ids, entries_with_kinds}
use hivra_app.Relationships.View.{relationship_current_view_v1}

pub data CapsuleType : Type 0 where
  leaf relay : CapsuleType

unfoldable pub capsule_type_byte : CapsuleType → ℕ
capsule_type_byte leaf = 0
capsule_type_byte relay = 1

pub record CapsuleState : Type 0 where
  pub public_key : Bytes
  pub capsule_type : ℕ
  pub network : ℕ
  pub slots : List (Option Bytes)
  pub ledger_hash : ℕ
  pub ledger_head_commitment : Option Commitment
  pub relationships_count : ℕ
  pub version : ℕ
  pub starter_kinds : List (Option ℕ)

pub record Capsule : Type 0 where
  pub pubkey : PubKey
  pub capsule_type : CapsuleType
  pub network : Network
  pub ledger : Ledger

-- A `u32`, with the largest one for a count that does not fit.
unfoldable pub count_relationships : Ledger → ℕ
count_relationships ledger =
    let count = (relationship_current_view_v1 ledger none).active_peer_count in
    if ltb count (2 ^ 32) then count else 4294967295

-- `len() as u32` wraps around.
unfoldable pub from_capsule : (Bytes → Bytes) → Capsule → CapsuleState
from_capsule sha256 capsule =
    let layout = from_ledger capsule.ledger in
    record {
      public_key = capsule.pubkey;
      capsule_type = capsule_type_byte capsule.capsule_type;
      network = network_to_byte capsule.network;
      slots = starter_ids layout;
      ledger_hash = capsule.ledger.last_hash;
      ledger_head_commitment = head_commitment_v5 sha256 capsule.ledger;
      relationships_count = count_relationships capsule.ledger;
      version = length capsule.ledger.events % 2 ^ 32;
      starter_kinds =
          map (λ entry. Option.map kind_to_byte entry.starter_kind)
            (entries_with_kinds layout capsule.ledger);
    }
