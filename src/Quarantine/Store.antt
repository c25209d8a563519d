-- ===== src/Quarantine/Store.antt =====
-- The repository of a capsule's quarantine and its operations (inbound_quarantine.rs).
--
-- An operation on `&mut self` answers the repository after the call beside its result. The lock
-- that serialises the writes of one process is left out.
use hivra_app.Prelude.{
  ℕ, ◌-◌, Bool, true, false, not, ◌&&◌, ◌||◌, Option, none, some, List, [], ◌∷◌, Result, ok, err,
  ltb, leb, ◌==◌, if◌then◌else◌, length, any, find, retain, map, get_elem?, bytes_le, ◌>>=◌, ◌>>◌,
}
use mathlib.Core.Option
use hivra_app.Primitives.{Bytes, bytes_eq}
use hivra_app.Transport.{DeliveryEnvelope}
use hivra_app.Quarantine.{
  QuarantineError, invalid_record, corrupt, crypto_failed, Scope, QuarantineRecord, SenderPolicy,
  Snapshot, RecoveredEnvelope, SenderIngressDecision, permit, already_charged, quarantined_decision,
  Host, fresh_snapshot, tombstone_retention_secs,
}
use hivra_app.Quarantine.Text.{
  validate_event_id, validate_scope, encode_hex, decode_hex32, record_associated_data,
  into_delivery_envelope,
}
use hivra_app.Quarantine.Validation.{validate_snapshot}
use hivra_app.Quarantine.Policies.{
  update_at, maintain_sender_policy_state, find_or_add_policy, ensure_charge_evidence_capacity,
  charge_policy, touch_policy,
}
use hivra_app.Quarantine.Records.{
  has_event_id, append_quarantine_record, append_tombstone, has_tombstone, update_record, retried,
}

pub record Repository : Type 0 where
  pub scope : Scope
  pub snapshot : Snapshot

-- "expired", "consumed" and "sender_rate_limited"
abbrev pub reason_expired : Bytes
reason_expired = b'e' ∷ b'x' ∷ b'p' ∷ b'i' ∷ b'r' ∷ b'e' ∷ b'd' ∷ []

abbrev pub reason_consumed : Bytes
reason_consumed = b'c' ∷ b'o' ∷ b'n' ∷ b's' ∷ b'u' ∷ b'm' ∷ b'e' ∷ b'd' ∷ []

abbrev pub reason_rate_limited : Bytes
reason_rate_limited =
    b's' ∷ b'e' ∷ b'n' ∷ b'd' ∷ b'e' ∷ b'r' ∷ b'_' ∷ b'r' ∷ b'a' ∷ b't' ∷ b'e' ∷ b'_' ∷ b'l' ∷ b'i'
    ∷ b'm' ∷ b'i' ∷ b't' ∷ b'e' ∷ b'd' ∷ []

-- The order of `next_eligible`.
abbrev pub due_le : QuarantineRecord → QuarantineRecord → Bool
due_le a b =
    if ltb a.eligible_after b.eligible_after
    then true
    else if ltb b.eligible_after a.eligible_after
    then false
    else if ltb a.quarantined_at b.quarantined_at
    then true
    else if ltb b.quarantined_at a.quarantined_at
    then false
    else bytes_le a.adapter_event_id b.adapter_event_id

-- `min_by`: the first of the least.
abbrev pub first_due : List QuarantineRecord → Option QuarantineRecord
first_due [] = none
first_due (r ∷ records) = elim (first_due records) [
  | none ↦ some r
  | some other ↦ if due_le r other then some r else some other
]

abbrev pub is_due : ℕ → QuarantineRecord → Bool
is_due now r = leb r.eligible_after now && ltb now r.expires_at

unfoldable pub has_terminal_evidence : Repository → Bytes → Bool
has_terminal_evidence repo event_id = has_tombstone repo.snapshot.tombstones event_id

module _ (host : Host) where
  abbrev pub checked_repository : Scope → Snapshot → Result QuarantineError Repository
  checked_repository scope snapshot = validate_snapshot host snapshot scope >>= λ _.
      ok (record { scope = scope; snapshot = snapshot })

  -- `stored` is what the file system and the key store answer: the snapshot of the file, none
  -- without a file, or their error.
  unfoldable pub open_repository :
      Scope → Result QuarantineError (Option Snapshot) → Result QuarantineError Repository
  open_repository scope stored = do
    _ ← validate_scope scope
    found ← stored
    checked_repository scope (Option.get_or found (fresh_snapshot scope))

  -- `persist` checks the snapshot before it is stored.
  unfoldable pub persist : Repository → Result QuarantineError (Unit {0})
  persist repo =
      validate_snapshot host repo.snapshot repo.scope >> host.store_snapshot repo.snapshot

  -- `self.snapshot = next; self.persist()?; Ok(a)`
  abbrev pub commit :
      {A : Type 0} → Repository → Snapshot → A → Repository × Result QuarantineError A
  commit repo next a =
      (record repo { snapshot = next }, persist (record repo { snapshot = next }) >>= λ _. ok a)

  -- A `?` before the repository has changed.
  abbrev pub and_then :
      {A B : Type 0}
      → Repository
      → Result QuarantineError A
      → (A → Repository × Result QuarantineError B)
      → Repository × Result QuarantineError B
  and_then repo (ok a) f = f a
  and_then repo (err e) f = (repo, err e)

  unfoldable pub quarantine :
      Repository
      → Bytes
      → List Bytes
      → DeliveryEnvelope
      → Bytes
      → ℕ
      → Repository × Result QuarantineError (Unit {0})
  quarantine repo event_id observed_by envelope reason now =
      and_then repo
        (append_quarantine_record host repo.snapshot repo.scope event_id observed_by envelope reason
          now)
        (λ next. commit repo next tt)

  -- The decision for an event that does not wait yet, given the policy of its sender.
  abbrev pub decide :
      Repository
      → Bytes
      → List Bytes
      → DeliveryEnvelope
      → ℕ
      → Snapshot
      → ℕ
      → SenderPolicy
      → Repository × Result QuarantineError SenderIngressDecision
  decide repo event_id observed_by envelope now next index policy =
      if any (λ evidence. bytes_eq evidence.adapter_event_id event_id) policy.charged_events
      then commit repo
          (record next {
            sender_policies = update_at (touch_policy now) index next.sender_policies;
          })
          already_charged
      else if policy.available_permits == 0
      then and_then repo
          (append_quarantine_record host next repo.scope event_id observed_by envelope
            reason_rate_limited now)
          (λ waiting.
            commit repo
              (record waiting {
                sender_policies = update_at (touch_policy now) index waiting.sender_policies;
              })
              quarantined_decision)
      else and_then repo (ensure_charge_evidence_capacity host next index policy) (λ _.
        commit repo
          (record next {
            sender_policies = update_at (charge_policy event_id now) index next.sender_policies;
          })
          permit)

  -- The index is that of a policy, so that the panic of `[policy_index]` is not reached; it is
  -- answered with `corrupt` here.
  abbrev pub decide_at :
      Repository
      → Bytes
      → List Bytes
      → DeliveryEnvelope
      → ℕ
      → Snapshot × ℕ
      → Repository × Result QuarantineError SenderIngressDecision
  decide_at repo event_id observed_by envelope now found =
      elim (get_elem? found.0.sender_policies found.1) [
        | none ↦ (repo, err corrupt)
        | some policy ↦ decide repo event_id observed_by envelope now found.0 found.1 policy
      ]

  unfoldable pub apply_sender_policy :
      Repository
      → Bytes
      → List Bytes
      → DeliveryEnvelope
      → ℕ
      → Repository × Result QuarantineError SenderIngressDecision
  apply_sender_policy repo event_id observed_by envelope now =
      let next = maintain_sender_policy_state repo.snapshot now in
      and_then repo (validate_event_id event_id) (λ _.
        if any (has_event_id event_id) next.records
        then and_then repo
            (append_quarantine_record host next repo.scope event_id observed_by envelope
              reason_rate_limited now)
            (λ waiting. commit repo waiting quarantined_decision)
        else and_then repo (find_or_add_policy repo.scope (encode_hex envelope.from) now next)
            (decide_at repo event_id observed_by envelope now))

  -- The loop of `expire_due`: each id gets its tombstone, and its record goes.
  unfoldable pub expire_ids : ℕ → List Bytes → Snapshot → Result QuarantineError Snapshot
  expire_ids now [] snapshot = ok snapshot
  expire_ids now (event_id ∷ ids) snapshot = elim (find (has_event_id event_id) snapshot.records) [
    | none ↦ err corrupt
    | some r ↦ append_tombstone host snapshot r reason_expired now >>= λ next.
        expire_ids now ids
          (record next { records = retain (λ x. not (has_event_id event_id x)) next.records })
  ]

  -- The snapshot without the tombstones past their retention; the code drops them in place, and
  -- they stay dropped when the call fails.
  abbrev pub without_old_tombstones : Snapshot → ℕ → Snapshot
  without_old_tombstones snapshot now = record snapshot {
    tombstones =
        retain (λ t. leb (now - t.terminal_at) tombstone_retention_secs) snapshot.tombstones;
  }

  abbrev pub expired_record_ids : Snapshot → ℕ → List Bytes
  expired_record_ids snapshot now =
      map (λ r. r.adapter_event_id) (retain (λ r. leb r.expires_at now) snapshot.records)

  unfoldable pub expire_due : Repository → ℕ → Repository × Result QuarantineError ℕ
  expire_due repo now =
      let kept = without_old_tombstones repo.snapshot now in
      let ids = expired_record_ids repo.snapshot now in
      let pruned = record repo { snapshot = kept } in
      if length ids == 0 && (length repo.snapshot.tombstones == length kept.tombstones)
      then (pruned, ok 0)
      else and_then pruned (expire_ids now ids kept) (λ next. commit pruned next (length ids))

  -- The tests of an envelope against its record.
  abbrev pub checked :
      Scope → QuarantineRecord → DeliveryEnvelope → Result QuarantineError RecoveredEnvelope
  checked scope r envelope =
      if not (bytes_eq (encode_hex envelope.from) r.authenticated_sender)
      then err corrupt
      else decode_hex32 scope.transport_endpoint >>= λ endpoint.
          if not (bytes_eq envelope.to endpoint) || not (envelope.kind == r.message_kind)
          then err corrupt
          else ok (record { adapter_event_id = r.adapter_event_id; envelope = envelope })

  -- The envelope of a record, checked against it.
  unfoldable pub recover : Scope → QuarantineRecord → Result QuarantineError RecoveredEnvelope
  recover scope r =
      elim (host.open_record (record_associated_data scope r.adapter_event_id)
        r.envelope_ciphertext) [
          | none ↦ err crypto_failed
          | some plaintext ↦ elim (host.deserialize_envelope plaintext) [
            | none ↦ err corrupt
            | some stored ↦ into_delivery_envelope stored >>= checked scope r
          ]
        ]

  unfoldable pub next_eligible : Repository → ℕ → Result QuarantineError (Option RecoveredEnvelope)
  next_eligible repo now = elim (first_due (retain (is_due now) repo.snapshot.records)) [
    | none ↦ ok none
    | some r ↦ recover repo.scope r >>= λ envelope. ok (some envelope)
  ]

  unfoldable pub mark_consumed :
      Repository → Bytes → ℕ → Repository × Result QuarantineError (Unit {0})
  mark_consumed repo event_id now = elim (find (has_event_id event_id) repo.snapshot.records) [
    | none ↦ (repo, err invalid_record)
    | some r ↦ and_then repo (append_tombstone host repo.snapshot r reason_consumed now) (λ next.
        commit repo
          (record next { records = retain (λ x. not (has_event_id event_id x)) next.records }) tt)
  ]

  -- The record is changed in place before it is stored.
  unfoldable pub mark_retry :
      Repository → Bytes → ℕ → Repository × Result QuarantineError (Unit {0})
  mark_retry repo event_id now =
      if any (has_event_id event_id) repo.snapshot.records
      then commit repo
          (record (repo.snapshot) {
            records = update_record event_id (retried now) repo.snapshot.records;
          })
          tt
      else (repo, err invalid_record)
