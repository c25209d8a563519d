-- ===== src/Quarantine.antt =====
-- platform/hivra-ffi/src/inbound_quarantine.rs: the bounded store of received envelopes that wait,
-- and the rate limit of their senders.
--
-- Strings are their UTF-8 bytes. Serialisation, sealing and files are not the repository's code:
-- the record Host has what they answer.
pub mod Text
pub mod Validation
pub mod Policies
pub mod Records
pub mod Store
pub mod Rate
pub mod Steps
pub mod Counting
pub mod Bounded
pub mod Kept
pub mod Reachable
pub mod Ended
pub mod Expired
pub mod Due
pub mod Senders
pub mod Decisions
pub mod Served
mod Examples
use hivra_app.Prelude.{
  ℕ, ◌*◌, Option, none, some, List, [], ◌∷◌, Result, ok, err, same, Bool, ℕ_discrete,
}
use hivra_app.Primitives.{Bytes, Bytes-discrete}
use hivra_app.Transport.{DeliveryEnvelope, DomainEventProof}

abbrev pub quarantine_schema_version : ℕ
quarantine_schema_version = 1

-- "nostr"
abbrev pub adapter_name : Bytes
adapter_name = b'n' ∷ b'o' ∷ b's' ∷ b't' ∷ b'r' ∷ []

abbrev pub max_records : ℕ
max_records = 256

abbrev pub max_ciphertext_bytes : ℕ
max_ciphertext_bytes = 33554432

abbrev pub max_records_per_sender : ℕ
max_records_per_sender = 32

abbrev pub max_observations : ℕ
max_observations = 16

abbrev pub payload_retention_secs : ℕ
payload_retention_secs = 259200

abbrev pub tombstone_retention_secs : ℕ
tombstone_retention_secs = 2592000

abbrev pub max_tombstones : ℕ
max_tombstones = 1024

abbrev pub max_tombstone_bytes : ℕ
max_tombstone_bytes = 1048576

abbrev pub initial_retry_delay_secs : ℕ
initial_retry_delay_secs = 15

abbrev pub max_retry_delay_secs : ℕ
max_retry_delay_secs = 900

abbrev pub max_event_id_len : ℕ
max_event_id_len = 128

abbrev pub max_endpoint_len : ℕ
max_endpoint_len = 512

abbrev pub sender_policy_burst : ℕ
sender_policy_burst = 8

abbrev pub sender_policy_refill_secs : ℕ
sender_policy_refill_secs = 15

abbrev pub max_policy_senders : ℕ
max_policy_senders = 1024

abbrev pub charge_evidence_retention_secs : ℕ
charge_evidence_retention_secs = 691200

abbrev pub max_charge_evidence : ℕ
max_charge_evidence = 65536

abbrev pub max_charge_evidence_per_sender : ℕ
max_charge_evidence_per_sender = 40960

abbrev pub max_sender_policy_bytes : ℕ
max_sender_policy_bytes = 8388608

pub data QuarantineError : Type 0 where
  uninitialized invalid_scope invalid_record capacity : QuarantineError
  tombstone_capacity corrupt crypto_failed io_failed : QuarantineError

pub record Scope : Type 0 where
  pub capsule_id : Bytes
  pub network : ℕ
  pub transport_endpoint : Bytes

unfoldable pub Scope-discrete : Discrete Scope
unfolding ℕ_discrete
Scope-discrete = hlevel ℕ_discrete

abbrev pub scope_eq : Scope → Scope → Bool
scope_eq = same Scope-discrete

pub record QuarantineRecord : Type 0 where
  pub schema_version : ℕ
  pub scope : Scope
  pub adapter : Bytes
  pub adapter_event_id : Bytes
  pub authenticated_sender : Bytes
  pub observed_by : List Bytes
  pub message_kind : ℕ
  pub reason : Bytes
  pub first_observed_at : ℕ
  pub quarantined_at : ℕ
  pub eligible_after : ℕ
  pub expires_at : ℕ
  pub attempt_count : ℕ
  pub last_attempt_at : Option ℕ
  pub envelope_ciphertext : Bytes

pub record Tombstone : Type 0 where
  pub schema_version : ℕ
  pub scope : Scope
  pub adapter : Bytes
  pub adapter_event_id : Bytes
  pub authenticated_sender : Bytes
  pub message_kind : ℕ
  pub terminal_reason : Bytes
  pub first_observed_at : ℕ
  pub terminal_at : ℕ

pub record ChargeEvidence : Type 0 where
  pub adapter_event_id : Bytes
  pub charged_at : ℕ

pub record SenderPolicy : Type 0 where
  pub schema_version : ℕ
  pub scope : Scope
  pub authenticated_sender : Bytes
  pub available_permits : ℕ
  pub last_refill_at : ℕ
  pub last_activity_at : ℕ
  pub charged_events : List ChargeEvidence

pub record Snapshot : Type 0 where
  pub schema_version : ℕ
  pub scope : Scope
  pub records : List QuarantineRecord
  pub tombstones : List Tombstone
  pub sender_policies : List SenderPolicy

pub record StoredEnvelope : Type 0 where
  pub schema_version : ℕ
  pub from : Bytes
  pub to : Bytes
  pub kind : ℕ
  pub payload : Bytes
  pub timestamp : ℕ
  pub correlation_id : Option Bytes
  pub domain_event : Option DomainEventProof

pub record RecoveredEnvelope : Type 0 where
  pub adapter_event_id : Bytes
  pub envelope : DeliveryEnvelope

pub data SenderIngressDecision : Type 0 where
  permit already_charged quarantined_decision : SenderIngressDecision

-- The serialiser, the sealing of the key store and the file system: `none` is a failure. The
-- serialised sizes of lists are all that the bounds use of them.
pub record Host : Type 0 where
  pub serialize_envelope : StoredEnvelope → Option Bytes
  pub deserialize_envelope : Bytes → Option StoredEnvelope
  pub seal_record : (aad plaintext : Bytes) → Option Bytes
  pub open_record : (aad sealed : Bytes) → Option Bytes
  pub tombstones_size : List Tombstone → Option ℕ
  pub tombstone_size : Tombstone → Option ℕ
  pub policies_size : List SenderPolicy → Option ℕ
  pub store_snapshot : Snapshot → Result QuarantineError (Unit {0})

unfoldable pub stored_envelope : DeliveryEnvelope → StoredEnvelope
stored_envelope envelope = record {
  schema_version = envelope.schema_version;
  from = envelope.from;
  to = envelope.to;
  kind = envelope.kind;
  payload = envelope.payload;
  timestamp = envelope.timestamp;
  correlation_id = envelope.correlation_id;
  domain_event = envelope.domain_event;
}

-- The snapshot of a scope without a file.
unfoldable pub fresh_snapshot : Scope → Snapshot
fresh_snapshot scope = record {
  schema_version = quarantine_schema_version;
  scope = scope;
  records = [];
  tombstones = [];
  sender_policies = [];
}
