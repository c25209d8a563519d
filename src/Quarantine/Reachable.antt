-- ===== src/Quarantine/Reachable.antt =====
-- Every sequence of operations keeps the bounds of the quarantine, whether they succeed or fail.
use hivra_app.Prelude.{
  ℕ, ◌≡◌, refl, subst, Bool, true, false, not, Option, none, some, List, [], ◌∷◌, Result, ok, err,
  arith, length, find, retain, any, get_elem?, leb, ◌==◌, Option-cases, inl, inr, if◌then◌else◌,
  ◌&&◌, ◌-◌,
}
use hivra_app.Primitives.{Bytes, bytes_eq}
use hivra_app.Transport.{DeliveryEnvelope}
use hivra_app.Quarantine.{QuarantineError, SenderPolicy, Snapshot, Host, tombstone_retention_secs}
use hivra_app.Quarantine.Text.{validate_event_id, encode_hex}
use hivra_app.Quarantine.Policies.{maintain_sender_policy_state, charge_policy, touch_policy}
use hivra_app.Quarantine.Records.{has_event_id, append_tombstone, retried}
use hivra_app.Quarantine.Store.{
  Repository, and_then, quarantine, decide, decide_at, apply_sender_policy, expire_ids, expire_due,
  mark_consumed, mark_retry, reason_expired, reason_consumed, reason_rate_limited,
  without_old_tombstones, expired_record_ids,
}
use hivra_app.Quarantine.Steps.{bind_ok}
use hivra_app.Quarantine.Counting.{tally-length}
use hivra_app.Quarantine.Bounded.{retain-RecordsFit, update_record-RecordsFit}
use hivra_app.Quarantine.Kept.{
  IsBounded, with_records-IsBounded, update_at-IsBounded, charge_policy-HasPermits,
  maintain_sender_policy_state-IsBounded, find_or_add_policy-IsBounded,
  append_quarantine_record-IsBounded, append_tombstone-IsBounded,
}

-- The calls that change a repository, with their arguments.
pub data Operation : Type 0 where
  quarantine_call :
      (event_id : Bytes) (observed_by : List Bytes) (envelope : DeliveryEnvelope) (reason : Bytes)
      (now : ℕ)
      → Operation
  policy_call :
      (event_id : Bytes) (observed_by : List Bytes) (envelope : DeliveryEnvelope) (now : ℕ)
      → Operation
  expire_call : (now : ℕ) → Operation
  consumed_call retry_call : (event_id : Bytes) (now : ℕ) → Operation

-- The snapshot without the records of an id.
abbrev pub without_record : Bytes → Snapshot → Snapshot
without_record id s = record s { records = retain (λ x. not (has_event_id id x)) s.records }

without_record-IsBounded :
    (id : Bytes) (s : Snapshot) → IsBounded s → IsBounded (without_record id s)
without_record-IsBounded id s h =
    with_records-IsBounded s _
      (retain-RecordsFit (λ x. not (has_event_id id x)) s.records h.records_fit) h

module _ (host : Host) where
  -- The repository after a call, whatever the call answers.
  unfoldable pub run : Operation → Repository → Repository
  run (quarantine_call event_id observed_by envelope reason now) repo =
      (quarantine host repo event_id observed_by envelope reason now).0
  run (policy_call event_id observed_by envelope now) repo =
      (apply_sender_policy host repo event_id observed_by envelope now).0
  run (expire_call now) repo = (expire_due host repo now).0
  run (consumed_call event_id now) repo = (mark_consumed host repo event_id now).0
  run (retry_call event_id now) repo = (mark_retry host repo event_id now).0

  unfoldable pub run_all : List Operation → Repository → Repository
  run_all [] repo = repo
  run_all (call ∷ calls) repo = run_all calls (run call repo)

  -- The bounds of what a call leaves.
  abbrev Leaves : {B : Type 0} → Repository × Result QuarantineError B → Type 0
  Leaves outcome = IsBounded outcome.0.snapshot

  and_then-Leaves :
      {A B : Type 0} (repo : Repository) (m : Result QuarantineError A)
      (f : A → Repository × Result QuarantineError B)
      → IsBounded repo.snapshot
      → ((a : A) → m ≡ ok a → Leaves (f a))
      → Leaves (and_then host repo m f)
  and_then-Leaves repo (ok a) f h k = k a refl
  and_then-Leaves repo (err e) f h k = h

  if-Leaves :
      {B : Type 0} (test : Bool) (x y : Repository × Result QuarantineError B)
      → Leaves x
      → Leaves y
      → Leaves (if test then x else y)
  if-Leaves true x y h k = h
  if-Leaves false x y h k = k

  Option-Leaves :
      {A B : Type 0} (found : Option A) (x : Repository × Result QuarantineError B)
      (f : A → Repository × Result QuarantineError B)
      → Leaves x
      → ((a : A) → found ≡ some a → Leaves (f a))
      → Leaves {B = B} (elim found [ none ↦ x | some a ↦ f a ])
  Option-Leaves none x f h k = h
  Option-Leaves (some a) x f h k = k a refl

  quarantine-Leaves :
      (repo : Repository) (event_id : Bytes) (observed_by : List Bytes)
      (envelope : DeliveryEnvelope) (reason : Bytes) (now : ℕ)
      → IsBounded repo.snapshot
      → Leaves (quarantine host repo event_id observed_by envelope reason now)
  unfolding quarantine
  quarantine-Leaves repo event_id observed_by envelope reason now h =
      and_then-Leaves repo _ _ h (λ next e.
        append_quarantine_record-IsBounded host repo.snapshot next repo.scope event_id observed_by
          envelope reason now e h)

  decide-Leaves :
      (repo : Repository) (event_id : Bytes) (observed_by : List Bytes)
      (envelope : DeliveryEnvelope) (now : ℕ) (next : Snapshot) (index : ℕ) (policy : SenderPolicy)
      → IsBounded repo.snapshot
      → IsBounded next
      → Leaves (decide host repo event_id observed_by envelope now next index policy)
  decide-Leaves repo event_id observed_by envelope now next index policy h k =
      if-Leaves
        (any (λ evidence. bytes_eq evidence.adapter_event_id event_id) policy.charged_events) _ _
        (update_at-IsBounded (touch_policy now) index next (λ p permits. permits) k)
        (if-Leaves (policy.available_permits == 0) _ _
          (and_then-Leaves repo _ _ h (λ waiting e.
            update_at-IsBounded (touch_policy now) index waiting (λ p permits. permits)
              (append_quarantine_record-IsBounded host next waiting repo.scope event_id observed_by
                envelope reason_rate_limited now e k)))
          (and_then-Leaves repo _ _ h (λ _ e.
            update_at-IsBounded (charge_policy event_id now) index next
              (charge_policy-HasPermits event_id now) k)))

  decide_at-Leaves :
      (repo : Repository) (event_id : Bytes) (observed_by : List Bytes)
      (envelope : DeliveryEnvelope) (now : ℕ) (found : Snapshot × ℕ)
      → IsBounded repo.snapshot
      → IsBounded found.0
      → Leaves (decide_at host repo event_id observed_by envelope now found)
  decide_at-Leaves repo event_id observed_by envelope now found h k =
      Option-Leaves (get_elem? found.0.sender_policies found.1) _ _ h (λ policy at.
        decide-Leaves repo event_id observed_by envelope now found.0 found.1 policy h k)

  apply_sender_policy-Leaves :
      (repo : Repository) (event_id : Bytes) (observed_by : List Bytes)
      (envelope : DeliveryEnvelope) (now : ℕ)
      → IsBounded repo.snapshot
      → Leaves (apply_sender_policy host repo event_id observed_by envelope now)
  unfolding apply_sender_policy
  apply_sender_policy-Leaves repo event_id observed_by envelope now h =
      let next = maintain_sender_policy_state repo.snapshot now in
      let k = maintain_sender_policy_state-IsBounded repo.snapshot now h in
      and_then-Leaves repo (validate_event_id event_id) _ h (λ _ valid.
        if-Leaves (any (has_event_id event_id) next.records) _ _
          (and_then-Leaves repo _ _ h (λ waiting e.
            append_quarantine_record-IsBounded host next waiting repo.scope event_id observed_by
              envelope reason_rate_limited now e k))
          (and_then-Leaves repo _ _ h (λ found e.
            decide_at-Leaves repo event_id observed_by envelope now found h (
              find_or_add_policy-IsBounded repo.scope (encode_hex envelope.from) now next found e
                k))))

  pub expire_ids-IsBounded :
      (now : ℕ) (ids : List Bytes) (s t : Snapshot)
      → expire_ids host now ids s ≡ ok t
      → IsBounded s
      → IsBounded t
  unfolding expire_ids
  expire_ids-IsBounded now [] s t e h = (let same : s ≡ t = ground arith in subst IsBounded same h)
  expire_ids-IsBounded now (id ∷ ids) s t e h =
      elim (Option-cases (find (has_event_id id) s.records)) [
        | inl lost ↦ ground arith
        | inr (r, found) ↦
            let (next, ended, rest) =
              bind_ok (append_tombstone host s r reason_expired now)
                (λ next. expire_ids host now ids (without_record id next)) t (ground arith) in
            expire_ids-IsBounded now ids (without_record id next) t rest (
              without_record-IsBounded id next
                (append_tombstone-IsBounded host s next r reason_expired now ended h))
      ]

  expire_due-Leaves :
      (repo : Repository) (now : ℕ) → IsBounded repo.snapshot → Leaves (expire_due host repo now)
  unfolding expire_due
  expire_due-Leaves repo now h =
      let kept = without_old_tombstones host repo.snapshot now in
      let ids = expired_record_ids host repo.snapshot now in
      let number = h.tombstones_fit in
      let k : IsBounded kept = record {
        records_fit = h.records_fit;
        tombstones_fit = omega (
          arith,
          tally-length (λ t. leb (now - t.terminal_at) tombstone_retention_secs)
              repo.snapshot.tombstones,
        );
        senders_fit = h.senders_fit;
        permits_fit = h.permits_fit;
      } in
      if-Leaves (length ids == 0 && (length repo.snapshot.tombstones == length kept.tombstones)) _ _
        k
        (and_then-Leaves (record repo { snapshot = kept }) _ _ k
          (λ next e. expire_ids-IsBounded now ids kept next e k))

  mark_consumed-Leaves :
      (repo : Repository) (event_id : Bytes) (now : ℕ)
      → IsBounded repo.snapshot
      → Leaves (mark_consumed host repo event_id now)
  unfolding mark_consumed
  mark_consumed-Leaves repo event_id now h =
      Option-Leaves (find (has_event_id event_id) repo.snapshot.records) _ _ h (λ r found.
        and_then-Leaves repo _ _ h (λ next e.
          without_record-IsBounded event_id next
            (append_tombstone-IsBounded host repo.snapshot next r reason_consumed now e h)))

  mark_retry-Leaves :
      (repo : Repository) (event_id : Bytes) (now : ℕ)
      → IsBounded repo.snapshot
      → Leaves (mark_retry host repo event_id now)
  unfolding mark_retry retried
  mark_retry-Leaves repo event_id now h =
      if-Leaves (any (has_event_id event_id) repo.snapshot.records) _ _
        (with_records-IsBounded repo.snapshot _
          (update_record-RecordsFit (retried now) event_id repo.snapshot.records (λ r. refl)
            (λ r. refl) (λ r. refl) h.records_fit)
          h)
        h

  run-IsBounded :
      (call : Operation) (repo : Repository)
      → IsBounded repo.snapshot
      → IsBounded (run call repo).snapshot
  unfolding run
  run-IsBounded (quarantine_call event_id observed_by envelope reason now) repo h =
      quarantine-Leaves repo event_id observed_by envelope reason now h
  run-IsBounded (policy_call event_id observed_by envelope now) repo h =
      apply_sender_policy-Leaves repo event_id observed_by envelope now h
  run-IsBounded (expire_call now) repo h = expire_due-Leaves repo now h
  run-IsBounded (consumed_call event_id now) repo h = mark_consumed-Leaves repo event_id now h
  run-IsBounded (retry_call event_id now) repo h = mark_retry-Leaves repo event_id now h

  -- Whatever calls are made on a repository, in any order and whether they succeed or fail, its
  -- snapshot keeps its bounds: at most 256 records, 32 of one sender, one of an event id and 32 MiB
  -- of ciphertext, 1024 tombstones and 1024 policies, and 8 permits in each policy.
  pub run_all-IsBounded :
      (calls : List Operation) (repo : Repository)
      → IsBounded repo.snapshot
      → IsBounded (run_all calls repo).snapshot
  unfolding run_all
  run_all-IsBounded [] repo h = h
  run_all-IsBounded (call ∷ calls) repo h =
      run_all-IsBounded calls (run call repo) (run-IsBounded call repo h)
