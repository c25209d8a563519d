-- ===== src/Engine.antt =====
-- engine/hivra-engine/src/lib.rs: the engine over its clock, randomness, cryptography and key store.
--
-- The traits are records of their operations, which the platform fills. A call reads the clock and
-- the generator at most once, so that a source is what it answers to that call; the key store is a
-- function of the message, as it holds one key pair.
pub mod Prepare
pub mod Incoming
pub mod Signing
pub mod Verified
pub mod Attested
pub mod Migration
pub mod Offers
mod Examples
use hivra_app.Prelude.{
  ℕ, Option, none, some, List, [], ◌∷◌, replicate, Result, ok, err, ok_or, ◌>>=◌, ◌>>◌,
}
use hivra_app.Primitives.{Bytes, PubKey, Signature, StarterId, Timestamp, Network, neste}
use hivra_app.Events.{
  Event, EventKind, event_id, new_v5, protocol_version, continuous_ledger_protocol_version,
}
use hivra_app.LedgerV5.{
  Commitment, LedgerAnchorV5, legacy_v4, anchor_owner, anchor_signature, anchor_commitment,
  LedgerEntryV5, unsigned, with_signature, entry_commitment, LedgerV5Error, not_continuous_ledger,
}
use hivra_app.Ledger.{Ledger, ContinuousLedgerV5, verify_v5_structure, v5_entries}

pub record TimeSource : Type 0 where
  pub now : ℕ

-- `fill_bytes` answers the buffer as it leaves it.
pub record RandomSource : Type 0 where
  pub fill_bytes : Bytes → Bytes

unfoldable pub random_32 : RandomSource → Bytes
random_32 rng = rng.fill_bytes (replicate 32 0)

unfoldable pub random_64 : RandomSource → Bytes
random_64 rng = rng.fill_bytes (replicate 64 0)

pub record CryptoProvider (E : Type 0) : Type 0 where
  pub verify : Bytes → PubKey → Signature → Result E (Unit {0})
  pub sign : Bytes → Bytes → Result E Signature
  pub ecdh : Bytes → PubKey → Result E Bytes

pub record SecureKeyStore (E : Type 0) : Type 0 where
  pub generate : Result E PubKey
  pub public_key : Result E PubKey
  pub sign : Bytes → Result E Signature

pub record EngineConfig : Type 0 where
  pub network : Network
  pub invitation_timeout : ℕ
  pub domain_event_version : ℕ

unfoldable pub default_config : EngineConfig
default_config = record {
  network = neste;
  invitation_timeout = 86400;
  domain_event_version = protocol_version;
}

unfoldable pub for_continuous_ledger : EngineConfig
unfolding default_config
for_continuous_ledger = record default_config {
  domain_event_version = continuous_ledger_protocol_version;
}

pub record Engine (C K : Type 0) : Type 0 where
  pub time : TimeSource
  pub rng : RandomSource
  pub crypto : CryptoProvider C
  pub keystore : SecureKeyStore K
  pub config : EngineConfig

pub data EngineError (K : Type 0) : Type 0 where
  keystore_error : K → EngineError K
  matching_invitation_not_found no_matching_starter no_empty_slot : EngineError K
  invalid_accept_plan : EngineError K

pub record PreparedEvent : Type 0 where
  pub event : Event
  pub recipient : Option PubKey

pub data IncomingEffect : Type 0 where
  append_event : Event → IncomingEffect

pub data OutgoingRejectionEffect : Type 0 where
  burn_starter : (starter_id : StarterId) → OutgoingRejectionEffect
  unlock_only : OutgoingRejectionEffect

pub data LedgerV5VerificationError (C : Type 0) : Type 0 where
  structure_error : LedgerV5Error → LedgerV5VerificationError C
  anchor_signature_error domain_signature_error : C → LedgerV5VerificationError C
  entry_signature_error : C → LedgerV5VerificationError C

-- `.map_err(f)`
abbrev pub map_err : {A E F : Type 0} → (E → F) → Result E A → Result F A
map_err f (ok a) = ok a
map_err f (err e) = err (f e)

abbrev pub entries_or_none : Option (List LedgerEntryV5) → List LedgerEntryV5
entries_or_none none = []
entries_or_none (some entries) = entries

module _ {C K : Type 0} (engine : Engine C K) where
  unfoldable pub now : Timestamp
  now = engine.time.now

  unfoldable pub random_id : Bytes
  random_id = random_32 engine.rng

  unfoldable pub public_key : Result K PubKey
  public_key = engine.keystore.public_key

module _ (sha256 : Bytes → Bytes) {C K : Type 0} (engine : Engine C K) where
  unfoldable pub sign_event : Event → Result K Signature
  sign_event event = engine.keystore.sign (event_id sha256 event)

  unfoldable pub verify_event : Event → PubKey → Result C (Unit {0})
  verify_event event pubkey = engine.crypto.verify (event_id sha256 event) pubkey event.signature

  unfoldable pub prepare_domain_event_v5 : EventKind → Bytes → Result K Event
  prepare_domain_event_v5 kind payload = do
    signer ← public_key engine
    signature ←
        engine.keystore.sign
          (event_id sha256 (new_v5 kind payload (now engine) (replicate 64 0) signer))
    ok (new_v5 kind payload (now engine) signature signer)

  unfoldable pub prepare_ledger_entry_v5 : ℕ → Commitment → Event → Result K LedgerEntryV5
  prepare_ledger_entry_v5 sequence previous_commitment event = do
    owner ← public_key engine
    signature ←
        engine.keystore.sign
          (entry_commitment sha256 (unsigned owner sequence previous_commitment event))
    ok (with_signature (unsigned owner sequence previous_commitment event) signature)

  unfoldable pub prepare_legacy_anchor_v5 : Commitment → Result K LedgerAnchorV5
  prepare_legacy_anchor_v5 snapshot = do
    owner ← public_key engine
    signature ←
        engine.keystore.sign (anchor_commitment sha256 (legacy_v4 owner snapshot (replicate 64 0)))
    ok (legacy_v4 owner snapshot signature)

  unfoldable pub verify_domain_event_v5 : Event → Result C (Unit {0})
  verify_domain_event_v5 event =
      engine.crypto.verify (event_id sha256 event) event.signer event.signature

  unfoldable pub verify_ledger_entry_v5 : LedgerEntryV5 → Result C (Unit {0})
  verify_ledger_entry_v5 entry =
      engine.crypto.verify (entry_commitment sha256 entry) entry.owner entry.signature

  -- The anchor's signature, where it has one.
  unfoldable pub verify_anchor : LedgerAnchorV5 → Result (LedgerV5VerificationError C) (Unit {0})
  verify_anchor anchor = elim (anchor_signature anchor) [
    | none ↦ ok tt
    | some signature ↦
        map_err anchor_signature_error
          (engine.crypto.verify (anchor_commitment sha256 anchor) (anchor_owner anchor) signature)
  ]

  -- The loop over the entries.
  unfoldable pub verify_entries :
      List LedgerEntryV5 → Result (LedgerV5VerificationError C) (Unit {0})
  verify_entries [] = ok tt
  verify_entries (entry ∷ entries) =
      map_err domain_signature_error (verify_domain_event_v5 entry.event)
      >> (map_err entry_signature_error (verify_ledger_entry_v5 entry) >> verify_entries entries)

  -- `expect` on the entries panics only where the anchor was missing already.
  unfoldable pub verify_ledger_v5 : Ledger → Result (LedgerV5VerificationError C) (Unit {0})
  verify_ledger_v5 ledger = map_err structure_error (verify_v5_structure sha256 ledger) >> do
    continuity ← ok_or ledger.continuity_v5 (structure_error not_continuous_ledger)
    verify_anchor continuity.anchor >> verify_entries (entries_or_none (v5_entries sha256 ledger))
