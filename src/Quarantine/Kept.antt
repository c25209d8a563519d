-- ===== src/Quarantine/Kept.antt =====
-- The parts of the quarantine's operations keep its bounds.
use hivra_app.Prelude.{
  ℕ, suc, ◌+◌, ◌≤◌, ◌<◌, ◌≡◌, refl, subst, some, List, [], ◌∷◌, ◌++◌, ok, arith, All, All-append,
  length, length-append, length-sort_by, map, position, Bool-cases, Option-cases, inl, inr, ltb,
  sym,
}
use hivra_app.Primitives.{Bytes, bytes_eq}
use hivra_app.Transport.{DeliveryEnvelope}
use hivra_app.Quarantine.{
  QuarantineRecord, SenderPolicy, Snapshot, Scope, Host, max_tombstones, max_policy_senders,
  sender_policy_burst,
}
use hivra_app.Quarantine.Policies.{
  update_at, remove_at, refill_policy, maintain_policy, maintain_sender_policy_state, least_active,
  make_sender_policy_capacity, find_or_add_policy, charge_policy, new_policy,
}
use hivra_app.Quarantine.Records.{
  tombstone_le, tombstone_of, append_quarantine_record, append_tombstone,
}
use hivra_app.Quarantine.Steps.{bind_ok, append_quarantine_record_cases, append_tombstone_cases}
use hivra_app.Quarantine.Counting.{length-update_at, All-update_at, All-remove_at, length-remove_at}
use hivra_app.Quarantine.Bounded.{RecordsFit, update_record-RecordsFit, push-RecordsFit}

abbrev pub HasPermits : SenderPolicy → Type 0
HasPermits policy = policy.available_permits ≤ sender_policy_burst

-- The bounds of a snapshot: on its records, tombstones and policies, and on the permits of each.
pub record IsBounded (s : Snapshot) : Type 0 where
  pub records_fit : RecordsFit s.records
  pub tombstones_fit : length s.tombstones ≤ max_tombstones
  pub senders_fit : length s.sender_policies ≤ max_policy_senders
  pub permits_fit : All HasPermits s.sender_policies

-- The same snapshot with other records, or with other policies.
pub with_records-IsBounded :
    (s : Snapshot) (records : List QuarantineRecord)
    → RecordsFit records
    → IsBounded s
    → IsBounded (record s { records = records })
with_records-IsBounded s records fit h = record {
  records_fit = fit;
  tombstones_fit = h.tombstones_fit;
  senders_fit = h.senders_fit;
  permits_fit = h.permits_fit;
}

with_policies-IsBounded :
    (s : Snapshot) (policies : List SenderPolicy)
    → length policies ≤ max_policy_senders
    → All HasPermits policies
    → IsBounded s
    → IsBounded (record s { sender_policies = policies })
with_policies-IsBounded s policies number permits h = record {
  records_fit = h.records_fit;
  tombstones_fit = h.tombstones_fit;
  senders_fit = number;
  permits_fit = permits;
}

pub update_at-IsBounded :
    (f : SenderPolicy → SenderPolicy) (i : ℕ) (s : Snapshot)
    → ((p : SenderPolicy) → HasPermits p → HasPermits (f p))
    → IsBounded s
    → IsBounded (record s { sender_policies = update_at f i s.sender_policies })
update_at-IsBounded f i s keeps h =
    with_policies-IsBounded s (update_at f i s.sender_policies)
      (rw (length-update_at f i s.sender_policies) h.senders_fit)
      (All-update_at HasPermits f i s.sender_policies keeps h.permits_fit) h

pub charge_policy-HasPermits :
    (event_id : Bytes) (now : ℕ) (p : SenderPolicy)
    → HasPermits p
    → HasPermits (charge_policy event_id now p)
unfolding charge_policy
charge_policy-HasPermits event_id now p h = omega arith

maintain_policy-HasPermits :
    (now : ℕ) (p : SenderPolicy) → HasPermits p → HasPermits (maintain_policy now p)
unfolding maintain_policy refill_policy
maintain_policy-HasPermits now p h = ground arith

maintained :
    (now : ℕ) (policies : List SenderPolicy)
    → All HasPermits policies
    → (length (map (maintain_policy now) policies) ≡ length policies)
      × All HasPermits (map (maintain_policy now) policies)
maintained now [] h = (refl, tt)
maintained now (p ∷ policies) (here, there) =
    let (number, permits) = maintained now policies there in
    (omega (arith, number), (maintain_policy-HasPermits now p here, permits))

pub maintain_sender_policy_state-IsBounded :
    (s : Snapshot) (now : ℕ) → IsBounded s → IsBounded (maintain_sender_policy_state s now)
unfolding maintain_sender_policy_state
maintain_sender_policy_state-IsBounded s now h =
    let (number, permits) = maintained now s.sender_policies h.permits_fit in
    with_policies-IsBounded s (map (maintain_policy now) s.sender_policies)
      (rw number h.senders_fit) permits h

least_active-lt :
    (records : List QuarantineRecord) (i : ℕ) (policies : List SenderPolicy) (found : ℕ × ℕ)
    → least_active records i policies ≡ some found
    → found.0 < i + length policies
unfolding least_active
least_active-lt records i [] found h = ground arith
least_active-lt records i (p ∷ policies) found h =
    elim (Option-cases (least_active records (suc i) policies)) [
      | inl nothing ↦ ground arith
      | inr (other, there) ↦
          let below = least_active-lt records (suc i) policies other there in ground arith
    ]

make_sender_policy_capacity-room :
    (s t : Snapshot)
    → make_sender_policy_capacity s ≡ ok t
    → IsBounded s
    → IsBounded t × (length t.sender_policies < max_policy_senders)
unfolding make_sender_policy_capacity
make_sender_policy_capacity-room s t e h =
    elim (Bool-cases (ltb (length s.sender_policies) max_policy_senders)) [
      | inl room ↦
          let same : s ≡ t = ground arith in
          subst (λ x. IsBounded x × (length x.sender_policies < max_policy_senders)) same
            (h, ground arith)
      | inr full ↦ elim (Option-cases (least_active s.records 0 s.sender_policies)) [
        | inl nothing ↦ ground arith
        | inr (found, there) ↦
            let rest = remove_at found.0 s.sender_policies in
            let below = least_active-lt s.records 0 s.sender_policies found there in
            let shorter = length-remove_at found.0 s.sender_policies (omega arith) in
            let number = h.senders_fit in
            let same : record s { sender_policies = rest } ≡ t = ground arith in
            subst (λ x. IsBounded x × (length x.sender_policies < max_policy_senders)) same
              (
                with_policies-IsBounded s rest (omega arith)
                    (All-remove_at HasPermits found.0 s.sender_policies h.permits_fit) h,
                omega arith,
              )
      ]
    ]

pub find_or_add_policy-IsBounded :
    (scope : Scope) (sender : Bytes) (now : ℕ) (s : Snapshot) (found : Snapshot × ℕ)
    → find_or_add_policy scope sender now s ≡ ok found
    → IsBounded s
    → IsBounded found.0
unfolding find_or_add_policy
find_or_add_policy-IsBounded scope sender now s found e h =
    elim (Option-cases (position (λ p. bytes_eq p.authenticated_sender sender) s.sender_policies)) [
      | inr (i, at) ↦ let same : s ≡ found.0 = ground arith in subst IsBounded same h
      | inl nowhere ↦
          let (roomy, made, added) =
            bind_ok (make_sender_policy_capacity s) (λ t. ok (with_new t)) found (ground arith) in
          let (bounded, room) = make_sender_policy_capacity-room s roomy made h in
          let same : (with_new roomy).0 ≡ found.0 = ground arith in
          subst IsBounded same (
            with_policies-IsBounded roomy _
              (omega
                (arith, length-append roomy.sender_policies (new_policy scope sender now ∷ [])))
              (All-append HasPermits roomy.sender_policies (new_policy scope sender now ∷ [])
                bounded.permits_fit (omega arith, tt))
              bounded)
    ]
  where
    with_new : Snapshot → Snapshot × ℕ
    with_new t = (
      record t { sender_policies = t.sender_policies ++ (new_policy scope sender now ∷ []) },
      length t.sender_policies,
    )

module _ (host : Host) where
  pub append_quarantine_record-IsBounded :
      (s t : Snapshot) (scope : Scope) (event_id : Bytes) (observed_by : List Bytes)
      (envelope : DeliveryEnvelope) (reason : Bytes) (now : ℕ)
      → append_quarantine_record host s scope event_id observed_by envelope reason now ≡ ok t
      → IsBounded s
      → IsBounded t
  append_quarantine_record-IsBounded s t scope event_id observed_by envelope reason now e h =
      elim (append_quarantine_record_cases host s t scope event_id observed_by envelope reason now
        e) [
          | inl (existing, found, same) ↦ rw same (
              with_records-IsBounded s _
                (update_record-RecordsFit _ event_id s.records (λ r. refl) (λ r. refl) (λ r. refl)
                  h.records_fit)
                h)
          | inr (ciphertext, new, room, fits, same) ↦ rw same (
              with_records-IsBounded s _ (push-RecordsFit s.records _ new room fits h.records_fit)
                h)
        ]

  pub append_tombstone-IsBounded :
      (s t : Snapshot) (r : QuarantineRecord) (reason : Bytes) (now : ℕ)
      → append_tombstone host s r reason now ≡ ok t
      → IsBounded s
      → IsBounded t
  append_tombstone-IsBounded s t r reason now e h =
      elim (append_tombstone_cases host s t r reason now e) [
        | inl (known, same) ↦ subst IsBounded (sym same) h
        | inr (room, same) ↦ subst IsBounded (sym same) (record {
          records_fit = h.records_fit;
          tombstones_fit = ground (
            arith,
            length-sort_by tombstone_le (s.tombstones ++ (tombstone_of r reason now ∷ [])),
            length-append s.tombstones (tombstone_of r reason now ∷ []),
          );
          senders_fit = h.senders_fit;
          permits_fit = h.permits_fit;
        })
      ]
