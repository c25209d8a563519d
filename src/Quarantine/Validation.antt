-- ===== src/Quarantine/Validation.antt =====
-- `validate_snapshot`: what is checked of a snapshot before it is stored and after it is loaded
-- (inbound_quarantine.rs).
--
-- A `BTreeSet` of ids is the list of those seen; the count of a sender in the `BTreeMap` is how
-- often the list of the senders seen has it.
use hivra_app.Prelude.{
  ℕ, Bool, not, ◌&&◌, ◌||◌, Option, none, some, List, [], ◌∷◌, Result, ok, err, ltb, ◌==◌,
  if◌then◌else◌, length, any, retain, saturating_add, ◌>>◌, ◌>>=◌,
}
use hivra_app.Primitives.{Bytes, bytes_eq}
use hivra_app.Quarantine.{
  QuarantineError, corrupt, Scope, scope_eq, QuarantineRecord, Tombstone, ChargeEvidence,
  SenderPolicy, Snapshot, Host, quarantine_schema_version, adapter_name, max_records,
  max_ciphertext_bytes, max_records_per_sender, max_observations, payload_retention_secs,
  max_tombstones, max_tombstone_bytes, sender_policy_burst, max_policy_senders, max_charge_evidence,
  max_charge_evidence_per_sender, max_sender_policy_bytes,
}
use hivra_app.Quarantine.Text.{validate_event_id, validate_hex32}

abbrev pub seen : List Bytes → Bytes → Bool
seen ids id = any (λ x. bytes_eq x id) ids

abbrev pub count : List Bytes → Bytes → ℕ
count senders sender = length (retain (λ x. bytes_eq x sender) senders)

-- The tests of one record that need no other.
abbrev pub record_fits : Scope → QuarantineRecord → Bool
record_fits scope r =
    r.schema_version == quarantine_schema_version
    && (scope_eq r.scope scope
        && (bytes_eq r.adapter adapter_name
            && (not (ltb max_observations (length r.observed_by))
                && (r.expires_at == saturating_add r.first_observed_at payload_retention_secs))))

-- The loop over the records: the ids and senders seen, and the bytes so far.
unfoldable pub validate_records :
    Scope
    → List Bytes
    → List Bytes
    → ℕ
    → List QuarantineRecord
    → Result QuarantineError (List Bytes × ℕ)
validate_records scope ids senders bytes [] = ok (ids, bytes)
validate_records scope ids senders bytes (r ∷ records) =
    let rest =
      validate_records scope (r.adapter_event_id ∷ ids) (r.authenticated_sender ∷ senders)
        (saturating_add bytes (length r.envelope_ciphertext)) records in
    if not (record_fits scope r) || seen ids r.adapter_event_id
    then err corrupt
    else validate_event_id r.adapter_event_id
      >> (validate_hex32 r.authenticated_sender
          >> (if ltb max_records_per_sender
                (count (r.authenticated_sender ∷ senders) r.authenticated_sender)
              then err corrupt
              else rest))

-- The loop over the tombstones, which share the records' ids.
unfoldable pub validate_tombstones :
    Scope → List Bytes → List Tombstone → Result QuarantineError (Unit {0})
validate_tombstones scope ids [] = ok tt
validate_tombstones scope ids (t ∷ tombstones) =
    let rest = validate_tombstones scope (t.adapter_event_id ∷ ids) tombstones in
    if not (t.schema_version == quarantine_schema_version)
      || (not (scope_eq t.scope scope)
          || (not (bytes_eq t.adapter adapter_name) || seen ids t.adapter_event_id))
    then err corrupt
    else validate_event_id t.adapter_event_id >> (validate_hex32 t.authenticated_sender >> rest)

-- The inner loop over the charged events of a policy.
unfoldable pub validate_charges :
    List Bytes → List ChargeEvidence → Result QuarantineError (List Bytes)
validate_charges ids [] = ok ids
validate_charges ids (c ∷ charges) =
    let rest = validate_charges (c.adapter_event_id ∷ ids) charges in
    validate_event_id c.adapter_event_id >>= λ _.
    if seen ids c.adapter_event_id then err corrupt else rest

-- The loop over the policies: the senders and charged ids seen, and the number of charges.
unfoldable pub validate_policies :
    Scope → List Bytes → List Bytes → ℕ → List SenderPolicy → Result QuarantineError ℕ
validate_policies scope senders ids charged [] = ok charged
validate_policies scope senders ids charged (p ∷ policies) =
    if not (p.schema_version == quarantine_schema_version)
      || (not (scope_eq p.scope scope)
          || (ltb sender_policy_burst p.available_permits
              || (seen senders p.authenticated_sender
                  || ltb max_charge_evidence_per_sender (length p.charged_events))))
    then err corrupt
    else validate_hex32 p.authenticated_sender >>= λ _.
        validate_charges ids p.charged_events >>= λ more.
        validate_policies scope (p.authenticated_sender ∷ senders) more
          (saturating_add charged (length p.charged_events)) policies

-- A serialised size that has failed, or is above the limit.
abbrev pub check_size : Option ℕ → ℕ → Result QuarantineError (Unit {0})
check_size none limit = err corrupt
check_size (some size) limit = if ltb limit size then err corrupt else ok tt

abbrev pub check : Bool → Result QuarantineError (Unit {0})
check good = if good then ok tt else err corrupt

unfoldable pub validate_snapshot : Host → Snapshot → Scope → Result QuarantineError (Unit {0})
validate_snapshot host snapshot scope = do
  _ ← check (snapshot.schema_version == quarantine_schema_version && scope_eq snapshot.scope scope)
  _ ← check (
      not (ltb max_records (length snapshot.records))
      && (not (ltb max_tombstones (length snapshot.tombstones))
          && not (ltb max_policy_senders (length snapshot.sender_policies))))
  found ← validate_records scope [] [] 0 snapshot.records
  _ ← check (not (ltb max_ciphertext_bytes found.1))
  _ ← validate_tombstones scope found.0 snapshot.tombstones
  _ ← check_size (host.tombstones_size snapshot.tombstones) max_tombstone_bytes
  charged ← validate_policies scope [] [] 0 snapshot.sender_policies
  _ ← check (not (ltb max_charge_evidence charged))
  check_size (host.policies_size snapshot.sender_policies) max_sender_policy_bytes
