-- ===== src/Quarantine/Examples.antt =====
-- The properties of the quarantine at a small repository.
use hivra_app.Prelude.{
  ℕ, leb, map, ◌+◌, ◌-◌, ◌/◌, ◌≤◌, ◌<◌, ◌≡◌, refl, Bool, true, false, not, ◌||◌, none, some, List,
  [], ◌∷◌, ok, arith, All, length, find, retain, any, get_elem?, position, replicate,
}
use hivra_app.Primitives.{Bytes, bytes_eq}
use hivra_app.Transport.{DeliveryEnvelope}
use hivra_app.Quarantine.{
  Scope, QuarantineRecord, SenderPolicy, Snapshot, Host, permit, fresh_snapshot,
}
use hivra_app.Quarantine.Text.{encode_hex}
use hivra_app.Quarantine.Policies.{new_policy, maintain_policy, min}
use hivra_app.Quarantine.Records.{has_event_id, new_record}
use hivra_app.Quarantine.Store.{
  Repository, has_terminal_evidence, apply_sender_policy, expire_due, mark_consumed, mark_retry,
  is_due,
}
use hivra_app.Quarantine.Rate.{grants, grants-bounded}
use hivra_app.Quarantine.Bounded.{RecordsFit}
use hivra_app.Quarantine.Kept.{IsBounded}
use hivra_app.Quarantine.Reachable.{
  run_all, run_all-IsBounded, policy_call, consumed_call, retry_call, expire_call,
}
use hivra_app.Quarantine.Served.{Decided, apply_sender_policy-Served}
use hivra_app.Quarantine.Ended.{mark_consumed-ends}
use hivra_app.Quarantine.Expired.{is_named, expire_due-ends}
use hivra_app.Quarantine.Due.{Recovers, mark_retry-due}
use hivra_app.Samples.{key}

abbrev toy_host : Host
toy_host = record {
  serialize_envelope = λ stored. some stored.payload;
  deserialize_envelope = λ bytes. none;
  seal_record = λ aad plaintext. some plaintext;
  open_record = λ aad sealed. some sealed;
  tombstones_size = λ tombstones. some 0;
  tombstone_size = λ tombstone. some 0;
  policies_size = λ policies. some 0;
  store_snapshot = λ snapshot. ok tt;
}

abbrev place : Scope
place = record { capsule_id = replicate 64 97; network = 0; transport_endpoint = replicate 64 98 }

abbrev message : DeliveryEnvelope
message = record {
  schema_version = 1;
  from = key 1;
  to = key 2;
  kind = 7;
  payload = 1 ∷ 2 ∷ [];
  timestamp = 40;
  correlation_id = none;
  domain_event = none;
}

abbrev first_id : Bytes
first_id = b'e' ∷ b'1' ∷ []

abbrev second_id : Bytes
second_id = b'e' ∷ b'2' ∷ []

abbrev sender_of_message : Bytes
sender_of_message = encode_hex (key 1)

abbrev bucket : SenderPolicy
bucket = new_policy place sender_of_message 0

-- One record that waits since the time 50, and a policy of its sender.
abbrev waiting_record : QuarantineRecord
waiting_record = new_record place first_id [] message [] 50 (1 ∷ 2 ∷ [])

abbrev waiting : Snapshot
waiting = record {
  schema_version = 1;
  scope = place;
  records = waiting_record ∷ [];
  tombstones = [];
  sender_policies = bucket ∷ [];
}

abbrev waiting_repository : Repository
waiting_repository = record { scope = place; snapshot = waiting }

abbrev empty_repository : Repository
empty_repository = record {
  scope = place;
  snapshot = record {
    schema_version = 1;
    scope = place;
    records = [];
    tombstones = [];
    sender_policies = [];
  };
}

grants-bounded_example : grants bucket ((10, first_id) ∷ (40, second_id) ∷ []) ≤ 8 + (100 - 0) / 15
grants-bounded_example =
    grants-bounded 100 bucket ((10, first_id) ∷ (40, second_id) ∷ []) (omega arith) (omega arith)
      (omega arith, (omega arith, tt))

empty-RecordsFit : RecordsFit []
unfolding retain
empty-RecordsFit = record {
  number = omega arith;
  of_sender = λ sender. omega arith;
  of_id = λ id. omega arith;
  bytes = omega arith;
}

empty-IsBounded : IsBounded empty_repository.snapshot
empty-IsBounded = record {
  records_fit = empty-RecordsFit;
  tombstones_fit = omega arith;
  senders_fit = omega arith;
  permits_fit = tt;
}

run_all-IsBounded_example :
    IsBounded
      (run_all toy_host
        (policy_call first_id [] message 50
          ∷ retry_call first_id 60
          ∷ consumed_call first_id 70
          ∷ expire_call 80
          ∷ [])
        empty_repository).snapshot
run_all-IsBounded_example =
    run_all-IsBounded toy_host
      (policy_call first_id [] message 50
        ∷ retry_call first_id 60
        ∷ consumed_call first_id 70
        ∷ expire_call 80
        ∷ [])
      empty_repository empty-IsBounded

-- The first event of a new sender.
second_permitted :
    (apply_sender_policy toy_host empty_repository second_id [] message 100).1 ≡ ok permit
unfolding hivra_app.Quarantine.Policies.make_sender_policy_capacity apply_sender_policy find any
    retain position hivra_app.Primitives.Bytes-discrete encode_hex hivra_app.Prelude.saturating_add
    hivra_app.Prelude.sort_by hivra_app.Prelude.insert_by hivra_app.Prelude.bytes_le
    hivra_app.Prelude.ℕ_discrete hivra_app.Quarantine.Store.persist
    hivra_app.Quarantine.Scope-discrete hivra_app.Quarantine.Validation.validate_snapshot
    hivra_app.Quarantine.Validation.validate_records
    hivra_app.Quarantine.Validation.validate_tombstones
    hivra_app.Quarantine.Validation.validate_charges
    hivra_app.Quarantine.Validation.validate_policies hivra_app.Quarantine.Text.validate_event_id
    hivra_app.Quarantine.Text.validate_hex32 hivra_app.Quarantine.Text.merge_observations
    hivra_app.Quarantine.Text.collect_strings hivra_app.Quarantine.Text.insert_string
    hivra_app.Quarantine.Text.bounded_reason hivra_app.Quarantine.Text.take_chars
    hivra_app.Quarantine.Text.record_associated_data
    hivra_app.Quarantine.Policies.maintain_sender_policy_state
    hivra_app.Quarantine.Policies.find_or_add_policy hivra_app.Quarantine.Policies.refill_policy
    hivra_app.Quarantine.Policies.retained_charges
    hivra_app.Quarantine.Policies.ensure_charge_evidence_capacity
    hivra_app.Quarantine.Policies.charge_policy maintain_policy
    hivra_app.Quarantine.Records.append_tombstone
    hivra_app.Quarantine.Records.append_quarantine_record hivra_app.Quarantine.Records.push_record
    hivra_app.Quarantine.Records.seal_envelope hivra_app.Quarantine.Records.update_record
    hivra_app.Quarantine.Store.expire_ids
second_permitted = refl

apply_sender_policy-Served_example :
    Decided toy_host empty_repository second_id message 100 permit
      (apply_sender_policy toy_host empty_repository second_id [] message 100).0
apply_sender_policy-Served_example =
    apply_sender_policy-Served toy_host empty_repository second_id [] message 100 permit
      second_permitted

first_consumed : (mark_consumed toy_host waiting_repository first_id 100).1 ≡ ok tt
unfolding mark_consumed find any retain position hivra_app.Primitives.Bytes-discrete encode_hex
    hivra_app.Prelude.saturating_add hivra_app.Prelude.sort_by hivra_app.Prelude.insert_by
    hivra_app.Prelude.bytes_le hivra_app.Prelude.ℕ_discrete hivra_app.Quarantine.Store.persist
    hivra_app.Quarantine.Scope-discrete hivra_app.Quarantine.Validation.validate_snapshot
    hivra_app.Quarantine.Validation.validate_records
    hivra_app.Quarantine.Validation.validate_tombstones
    hivra_app.Quarantine.Validation.validate_charges
    hivra_app.Quarantine.Validation.validate_policies hivra_app.Quarantine.Text.validate_event_id
    hivra_app.Quarantine.Text.validate_hex32 hivra_app.Quarantine.Text.merge_observations
    hivra_app.Quarantine.Text.collect_strings hivra_app.Quarantine.Text.insert_string
    hivra_app.Quarantine.Text.bounded_reason hivra_app.Quarantine.Text.take_chars
    hivra_app.Quarantine.Text.record_associated_data
    hivra_app.Quarantine.Policies.maintain_sender_policy_state
    hivra_app.Quarantine.Policies.find_or_add_policy hivra_app.Quarantine.Policies.refill_policy
    hivra_app.Quarantine.Policies.retained_charges
    hivra_app.Quarantine.Policies.ensure_charge_evidence_capacity
    hivra_app.Quarantine.Policies.charge_policy maintain_policy
    hivra_app.Quarantine.Records.append_tombstone
    hivra_app.Quarantine.Records.append_quarantine_record hivra_app.Quarantine.Records.push_record
    hivra_app.Quarantine.Records.seal_envelope hivra_app.Quarantine.Records.update_record
    hivra_app.Quarantine.Store.expire_ids
first_consumed = refl

mark_consumed-ends_example :
    let after = (mark_consumed toy_host waiting_repository first_id 100).0 in
    (any (has_event_id first_id) waiting.records ≡ true)
    × (any (has_event_id first_id) after.snapshot.records ≡ false)
    × (after.snapshot.records ≡ retain (λ r. not (has_event_id first_id r)) waiting.records)
    × ((id : Bytes)
        → has_terminal_evidence after id
          ≡ (has_terminal_evidence waiting_repository id || bytes_eq first_id id))
mark_consumed-ends_example =
    mark_consumed-ends toy_host waiting_repository first_id 100 first_consumed

first_expired : (expire_due toy_host waiting_repository 300000).1 ≡ ok 1
unfolding expire_due find any retain position hivra_app.Primitives.Bytes-discrete encode_hex
    hivra_app.Prelude.saturating_add hivra_app.Prelude.sort_by hivra_app.Prelude.insert_by
    hivra_app.Prelude.bytes_le hivra_app.Prelude.ℕ_discrete hivra_app.Quarantine.Store.persist
    hivra_app.Quarantine.Scope-discrete hivra_app.Quarantine.Validation.validate_snapshot
    hivra_app.Quarantine.Validation.validate_records
    hivra_app.Quarantine.Validation.validate_tombstones
    hivra_app.Quarantine.Validation.validate_charges
    hivra_app.Quarantine.Validation.validate_policies hivra_app.Quarantine.Text.validate_event_id
    hivra_app.Quarantine.Text.validate_hex32 hivra_app.Quarantine.Text.merge_observations
    hivra_app.Quarantine.Text.collect_strings hivra_app.Quarantine.Text.insert_string
    hivra_app.Quarantine.Text.bounded_reason hivra_app.Quarantine.Text.take_chars
    hivra_app.Quarantine.Text.record_associated_data
    hivra_app.Quarantine.Policies.maintain_sender_policy_state
    hivra_app.Quarantine.Policies.find_or_add_policy hivra_app.Quarantine.Policies.refill_policy
    hivra_app.Quarantine.Policies.retained_charges
    hivra_app.Quarantine.Policies.ensure_charge_evidence_capacity
    hivra_app.Quarantine.Policies.charge_policy maintain_policy
    hivra_app.Quarantine.Records.append_tombstone
    hivra_app.Quarantine.Records.append_quarantine_record hivra_app.Quarantine.Records.push_record
    hivra_app.Quarantine.Records.seal_envelope hivra_app.Quarantine.Records.update_record
    hivra_app.Quarantine.Store.expire_ids
first_expired = refl

expire_due-ends_example :
    let after = (expire_due toy_host waiting_repository 300000).0 in
    let expired = retain (λ r. leb r.expires_at 300000) waiting.records in
    let ids = map (λ r. r.adapter_event_id) expired in
    (1 ≡ length ids)
    × (after.snapshot.records ≡ retain (λ r. not (is_named ids r)) waiting.records)
    × All (λ r. 300000 < r.expires_at) after.snapshot.records
    × All (λ id. has_terminal_evidence after id ≡ true) ids
expire_due-ends_example = expire_due-ends toy_host waiting_repository 300000 1 first_expired

first_waits : find (has_event_id first_id) waiting.records ≡ some waiting_record
unfolding find hivra_app.Primitives.Bytes-discrete
first_waits = refl

alive : 2000 < waiting_record.expires_at
unfolding hivra_app.Prelude.saturating_add
alive = omega arith

mark_retry-due_example :
    let after = (mark_retry toy_host waiting_repository first_id 100).0 in
    (q : QuarantineRecord) × (find (has_event_id first_id) after.snapshot.records ≡ some q)
    × (q.attempt_count ≡ min 65535 (0 + 1))
    × (is_due 110 q ≡ false)
    × (is_due 2000 q ≡ true)
    × Recovers toy_host after 2000
mark_retry-due_example =
    mark_retry-due toy_host waiting_repository first_id 100 110 2000 waiting_record first_waits
      (omega arith) (omega arith) (omega arith) alive
