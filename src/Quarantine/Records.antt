-- ===== src/Quarantine/Records.antt =====
-- The waiting records and the tombstones of a snapshot (inbound_quarantine.rs).
use hivra_app.Prelude.{
  ℕ, ◌+◌, ◌*◌, ◌^◌, Bool, not, ◌||◌, Option, none, some, List, [], ◌∷◌, ◌++◌, Result, ok, err, ltb,
  leb, ◌==◌, if◌then◌else◌, length, any, find, retain, saturating_add, bytes_le, sort_by, ◌>>=◌,
}
use hivra_app.Primitives.{Bytes, bytes_eq}
use hivra_app.Transport.{DeliveryEnvelope}
use hivra_app.Quarantine.{
  QuarantineError, invalid_record, capacity, tombstone_capacity, corrupt, crypto_failed, Scope,
  QuarantineRecord, Tombstone, Snapshot, Host, stored_envelope, quarantine_schema_version,
  adapter_name, max_records, max_ciphertext_bytes, max_records_per_sender, payload_retention_secs,
  max_tombstones, max_tombstone_bytes, initial_retry_delay_secs, max_retry_delay_secs,
}
use hivra_app.Quarantine.Text.{
  validate_event_id, encode_hex, merge_observations, bounded_reason, record_associated_data,
}
use hivra_app.Quarantine.Policies.{min}

abbrev pub has_event_id : Bytes → QuarantineRecord → Bool
has_event_id id r = bytes_eq r.adapter_event_id id

abbrev pub from_sender : Bytes → QuarantineRecord → Bool
from_sender sender r = bytes_eq r.authenticated_sender sender

-- `iter_mut().find(..)` and a change of what it finds.
unfoldable pub update_record :
    Bytes → (QuarantineRecord → QuarantineRecord) → List QuarantineRecord → List QuarantineRecord
update_record id f [] = []
update_record id f (r ∷ records) =
    if has_event_id id r then f r ∷ records else r ∷ update_record id f records

abbrev pub ciphertext_bytes : List QuarantineRecord → ℕ
ciphertext_bytes [] = 0
ciphertext_bytes (r ∷ records) = length r.envelope_ciphertext + ciphertext_bytes records

abbrev pub record_le : QuarantineRecord → QuarantineRecord → Bool
record_le a b = bytes_le a.adapter_event_id b.adapter_event_id

-- The record of a new event.
abbrev pub new_record :
    Scope → Bytes → List Bytes → DeliveryEnvelope → Bytes → ℕ → Bytes → QuarantineRecord
new_record scope event_id observed_by envelope reason now ciphertext = record {
  schema_version = quarantine_schema_version;
  scope = scope;
  adapter = adapter_name;
  adapter_event_id = event_id;
  authenticated_sender = encode_hex envelope.from;
  observed_by = merge_observations [] observed_by;
  message_kind = envelope.kind;
  reason = bounded_reason reason;
  first_observed_at = now;
  quarantined_at = now;
  eligible_after = saturating_add now initial_retry_delay_secs;
  expires_at = saturating_add now payload_retention_secs;
  attempt_count = 0;
  last_attempt_at = none;
  envelope_ciphertext = ciphertext;
}

-- Whether there is no place for one more record of the sender.
abbrev pub is_full : List QuarantineRecord → Bytes → Bool
is_full records sender =
    leb max_records (length records)
    || leb max_records_per_sender (length (retain (from_sender sender) records))

module _ (host : Host) where
  -- The serialised and sealed envelope.
  unfoldable pub seal_envelope : Scope → Bytes → DeliveryEnvelope → Result QuarantineError Bytes
  seal_envelope scope event_id envelope =
      elim (host.serialize_envelope (stored_envelope envelope)) [
        | none ↦ err corrupt
        | some plaintext ↦
            elim (host.seal_record (record_associated_data scope event_id) plaintext) [
              | none ↦ err crypto_failed
              | some sealed ↦ ok sealed
            ]
      ]

  -- The record pushed, where its ciphertext fits, and the records sorted.
  unfoldable pub push_record : Snapshot → QuarantineRecord → Result QuarantineError Snapshot
  push_record snapshot r =
      if ltb max_ciphertext_bytes (ciphertext_bytes snapshot.records + length r.envelope_ciphertext)
      then err capacity
      else ok (record snapshot { records = sort_by record_le (snapshot.records ++ (r ∷ [])) })

  -- An event that waits already, seen again.
  abbrev pub observe_again :
      Snapshot
      → Bytes
      → List Bytes
      → DeliveryEnvelope
      → QuarantineRecord
      → Result QuarantineError Snapshot
  observe_again snapshot event_id observed_by envelope existing =
      if not (bytes_eq existing.authenticated_sender (encode_hex envelope.from))
        || not (existing.message_kind == envelope.kind)
      then err invalid_record
      else ok (record snapshot {
        records =
            update_record event_id
              (λ r. record r { observed_by = merge_observations r.observed_by observed_by })
              snapshot.records;
      })

  abbrev pub add_record :
      Snapshot
      → Scope
      → Bytes
      → List Bytes
      → DeliveryEnvelope
      → Bytes
      → ℕ
      → Result QuarantineError Snapshot
  add_record snapshot scope event_id observed_by envelope reason now =
      if is_full snapshot.records (encode_hex envelope.from)
      then err capacity
      else seal_envelope scope event_id envelope >>= λ ciphertext.
          push_record snapshot
            (new_record scope event_id observed_by envelope reason now ciphertext)

  unfoldable pub append_quarantine_record :
      Snapshot
      → Scope
      → Bytes
      → List Bytes
      → DeliveryEnvelope
      → Bytes
      → ℕ
      → Result QuarantineError Snapshot
  append_quarantine_record snapshot scope event_id observed_by envelope reason now =
      validate_event_id event_id >>= λ _. elim (find (has_event_id event_id) snapshot.records) [
        | some existing ↦ observe_again snapshot event_id observed_by envelope existing
        | none ↦ add_record snapshot scope event_id observed_by envelope reason now
      ]

abbrev pub tombstone_of : QuarantineRecord → Bytes → ℕ → Tombstone
tombstone_of r terminal_reason now = record {
  schema_version = quarantine_schema_version;
  scope = r.scope;
  adapter = r.adapter;
  adapter_event_id = r.adapter_event_id;
  authenticated_sender = r.authenticated_sender;
  message_kind = r.message_kind;
  terminal_reason = terminal_reason;
  first_observed_at = r.first_observed_at;
  terminal_at = now;
}

abbrev pub tombstone_le : Tombstone → Tombstone → Bool
tombstone_le a b = bytes_le a.adapter_event_id b.adapter_event_id

abbrev pub has_tombstone : List Tombstone → Bytes → Bool
has_tombstone tombstones id = any (λ t. bytes_eq t.adapter_event_id id) tombstones

-- Whether the sizes leave no room, or are not to be had.
abbrev pub tombstone_room : Option ℕ → Option ℕ → Result QuarantineError (Unit {0})
tombstone_room none new_bytes = err corrupt
tombstone_room (some current_bytes) none = err corrupt
tombstone_room (some current_bytes) (some new_bytes) =
    if ltb max_tombstone_bytes (saturating_add current_bytes new_bytes)
    then err tombstone_capacity
    else ok tt

unfoldable pub append_tombstone :
    Host → Snapshot → QuarantineRecord → Bytes → ℕ → Result QuarantineError Snapshot
append_tombstone host snapshot r terminal_reason now =
    if has_tombstone snapshot.tombstones r.adapter_event_id
    then ok snapshot
    else if leb max_tombstones (length snapshot.tombstones)
    then err tombstone_capacity
    else tombstone_room (host.tombstones_size snapshot.tombstones)
        (host.tombstone_size (tombstone_of r terminal_reason now))
      >>= λ _. ok (record snapshot {
        tombstones =
            sort_by tombstone_le (snapshot.tombstones ++ (tombstone_of r terminal_reason now ∷ []));
      })

-- The change of `mark_retry`: the delay doubles with the attempts, up to its limit, and the record
-- is never eligible later than it expires.
abbrev pub retry_delay : ℕ → ℕ
retry_delay attempts = min (initial_retry_delay_secs * 2 ^ min attempts 6) max_retry_delay_secs

unfoldable pub retried : ℕ → QuarantineRecord → QuarantineRecord
retried now r =
    let attempts = min 65535 (r.attempt_count + 1) in
    record r {
      attempt_count = attempts;
      last_attempt_at = some now;
      eligible_after = min (saturating_add now (retry_delay attempts)) r.expires_at;
    }
