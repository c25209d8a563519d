-- ===== src/Quarantine/Due.antt =====
-- Which record is recovered next, and that a retried one comes up again.
use hivra_app.Prelude.{
  ℕ, zero, suc, ◌+◌, ◌^◌, ◌≤◌, ◌<◌, ◌≡◌, refl, subst, ap, sym, ◌∙◌, true, false, ◌&&◌, some, List,
  [], ◌∷◌, ok, arith, All, All-mono, find, retain, any, leb, ltb, Bool-cases, inl, inr,
  if◌then◌else◌, bytes_le, u64_max, saturating_add, ◌>>=◌,
}
use native.Mathlib.Numerals.{unary_clauses}
use hivra_app.Quarantine.Ended.{found_there}
use hivra_app.Primitives.{Bytes}
use hivra_app.Quarantine.{QuarantineRecord, Host}
use hivra_app.Quarantine.Policies.{min}
use hivra_app.Quarantine.Records.{has_event_id, update_record, retried, retry_delay}
use hivra_app.Quarantine.Store.{
  Repository, due_le, first_due, is_due, recover, next_eligible, mark_retry,
}

bytes_le_total : (a b : Bytes) → bytes_le a b ≡ false → bytes_le b a ≡ true
unfolding bytes_le
bytes_le_total [] b h = ground arith
bytes_le_total (x ∷ a) [] h = refl
bytes_le_total (x ∷ a) (y ∷ b) h = ground (arith, bytes_le_total a b)

bytes_le_trans : (a b c : Bytes) → bytes_le a b ≡ true → bytes_le b c ≡ true → bytes_le a c ≡ true
unfolding bytes_le
bytes_le_trans [] b c h k = refl
bytes_le_trans (x ∷ a) [] c h k = ground arith
bytes_le_trans (x ∷ a) (y ∷ b) [] h k = ground arith
bytes_le_trans (x ∷ a) (y ∷ b) (z ∷ c) h k = ground (arith, bytes_le_trans a b c)

due_le_total : (a b : QuarantineRecord) → due_le a b ≡ false → due_le b a ≡ true
due_le_total a b h = ground (arith, bytes_le_total a.adapter_event_id b.adapter_event_id)

due_le_trans :
    (a b c : QuarantineRecord) → due_le a b ≡ true → due_le b c ≡ true → due_le a c ≡ true
due_le_trans a b c h k =
    ground (arith, bytes_le_trans a.adapter_event_id b.adapter_event_id c.adapter_event_id)

bytes_le_refl : (a : Bytes) → bytes_le a a ≡ true
unfolding bytes_le
bytes_le_refl [] = refl
bytes_le_refl (x ∷ a) = ground (arith, bytes_le_refl a)

due_le_refl : (a : QuarantineRecord) → due_le a a ≡ true
due_le_refl a = ground (arith, bytes_le_refl a.adapter_event_id)

All-due_le :
    (r q : QuarantineRecord) (records : List QuarantineRecord)
    → due_le r q ≡ true
    → All (λ x. due_le q x ≡ true) records
    → All (λ x. due_le r x ≡ true) records
All-due_le r q records h =
    All-mono (λ x. due_le q x ≡ true) (λ x. due_le r x ≡ true) records
      (λ x k. due_le_trans r q x h k)

-- Any records but none have a first one, and what holds of all of them holds of it.
first_due-least :
    (P : QuarantineRecord → Type 0) (x : QuarantineRecord) (records : List QuarantineRecord)
    → All P (x ∷ records)
    → (r : QuarantineRecord) × (first_due (x ∷ records) ≡ some r)
      × P r
      × All (λ y. due_le r y ≡ true) (x ∷ records)
first_due-least P x [] (h, _) = (x, refl, h, (due_le_refl x, tt))
first_due-least P x (y ∷ records) (h, k) =
    let (q, found, good, least) = first_due-least P y records k in
    elim (Bool-cases (due_le x q)) [
      | inl before ↦ (
        x,
        rw (found, before) refl,
        h,
        (due_le_refl x, All-due_le x q (y ∷ records) before least),
      )
      | inr behind ↦ (q, rw (found, behind) refl, good, (due_le_total x q behind, least))
    ]

due_exist :
    (now : ℕ) (records : List QuarantineRecord)
    → any (is_due now) records ≡ true
    → (x : QuarantineRecord) × (rest : List QuarantineRecord) × (retain (is_due now) records
        ≡ x ∷ rest)
unfolding any retain
due_exist now [] h = ground arith
due_exist now (x ∷ records) h = elim (Bool-cases (is_due now x)) [
  | inl due ↦ (x, retain (is_due now) records, rw due refl)
  | inr later ↦ rw later (due_exist now records (ground arith))
]

each_due :
    (now : ℕ) (records : List QuarantineRecord)
    → All (λ r. is_due now r ≡ true) (retain (is_due now) records)
unfolding retain
each_due now [] = tt
each_due now (x ∷ records) = elim (Bool-cases (is_due now x)) [
  | inl due ↦ rw due (due, each_due now records)
  | inr later ↦ rw later (each_due now records)
]

find_updated :
    (id : Bytes) (now : ℕ) (records : List QuarantineRecord) (r : QuarantineRecord)
    → find (has_event_id id) records ≡ some r
    → find (has_event_id id) (update_record id (retried now) records) ≡ some (retried now r)
unfolding find update_record retried
find_updated id now [] r h = ground arith
find_updated id now (x ∷ records) r h = ground (arith, find_updated id now records r)

found_due_there :
    (id : Bytes) (time : ℕ) (records : List QuarantineRecord) (q : QuarantineRecord)
    → find (has_event_id id) records ≡ some q
    → is_due time q ≡ true
    → any (is_due time) records ≡ true
unfolding find any
found_due_there id time [] q h k = ground arith
found_due_there id time (x ∷ records) q h k = ground (arith, found_due_there id time records q)

two_pow : (k : ℕ) → 1 ≤ k → 2 ≤ 2 ^ k
two_pow zero h = absurd (omega arith)
two_pow (suc zero) h = omega arith
two_pow (suc (suc k)) h =
    (let rest = two_pow (suc k) (omega arith) in simp unary_clauses (omega arith))

-- The delay of a retry is at least 30 seconds and at most 15 minutes.
retry_delay-bounds :
    (n : ℕ) → (30 ≤ retry_delay (min 65535 (n + 1))) × (retry_delay (min 65535 (n + 1)) ≤ 900)
retry_delay-bounds n =
    let big = two_pow (min (min 65535 (n + 1)) 6) (ground arith) in (ground arith, ground arith)

retried_attempts :
    (now : ℕ) (r : QuarantineRecord)
    → (retried now r).attempt_count ≡ min 65535 (r.attempt_count + 1)
unfolding retried
retried_attempts now r = refl

retried_waits :
    (now early : ℕ) (r : QuarantineRecord)
    → now + 900 ≤ u64_max
    → early < now + 30
    → is_due early (retried now r) ≡ false
unfolding retried saturating_add
retried_waits now early r fits soon =
    let bounds = retry_delay-bounds r.attempt_count in
    waits (retry_delay (min 65535 (r.attempt_count + 1))) bounds.0 bounds.1
  where
    waits :
        (delay : ℕ)
        → 30 ≤ delay
        → delay ≤ 900
        → (leb (min (if ltb u64_max (now + delay) then u64_max else now + delay) r.expires_at) early
            && ltb early r.expires_at)
          ≡ false
    waits delay low high = ground arith

retried_due :
    (now late : ℕ) (r : QuarantineRecord)
    → now + 900 ≤ u64_max
    → now + 900 ≤ late
    → late < r.expires_at
    → is_due late (retried now r) ≡ true
unfolding retried saturating_add
retried_due now late r fits after_all alive =
    due (retry_delay (min 65535 (r.attempt_count + 1))) (retry_delay-bounds r.attempt_count).1
  where
    due :
        (delay : ℕ)
        → delay ≤ 900
        → (leb (min (if ltb u64_max (now + delay) then u64_max else now + delay) r.expires_at) late
            && ltb late r.expires_at)
          ≡ true
    due delay high = ground arith

module _ (host : Host) where
  -- The record that `next_eligible` recovers: a due one, before which no due record comes.
  abbrev pub Recovers : Repository → ℕ → Type 0
  Recovers repo now =
      (r : QuarantineRecord) × (is_due now r ≡ true)
      × All (λ x. due_le r x ≡ true) (retain (is_due now) repo.snapshot.records)
      × (next_eligible host repo now
          ≡ (recover host repo.scope r >>= λ envelope. ok (some envelope)))

  next_eligible_found :
      (repo : Repository) (now : ℕ) (r : QuarantineRecord)
      → first_due (retain (is_due now) repo.snapshot.records) ≡ some r
      → next_eligible host repo now ≡ (recover host repo.scope r >>= λ envelope. ok (some envelope))
  unfolding next_eligible
  next_eligible_found repo now r found = rw (found, next_eligible) refl

  next_eligible-Recovers :
      (repo : Repository) (now : ℕ)
      → any (is_due now) repo.snapshot.records ≡ true
      → Recovers repo now
  next_eligible-Recovers repo now h =
      let (x, rest, split) = due_exist now repo.snapshot.records h in
      let (r, found, due, least) =
        first_due-least (λ r. is_due now r ≡ true) x rest
          (subst (All (λ r. is_due now r ≡ true)) split (each_due now repo.snapshot.records)) in
      (
        r,
        due,
        subst (All (λ y. due_le r y ≡ true)) (sym split) least,
        next_eligible_found repo now r (ap first_due split ∙ found),
      )

  mark_retry_stores :
      (repo : Repository) (event_id : Bytes) (now : ℕ) (r : QuarantineRecord)
      → find (has_event_id event_id) repo.snapshot.records ≡ some r
      → (mark_retry host repo event_id now).0 ≡ record repo {
        snapshot = record (repo.snapshot) {
          records = update_record event_id (retried now) repo.snapshot.records;
        };
      }
  unfolding mark_retry
  mark_retry_stores repo event_id now r found =
      rw (found_there event_id repo.snapshot.records r found, mark_retry) refl

  -- A record whose retry is recorded at a time is not due in the 30 seconds after it. Fifteen
  -- minutes after it and until its payload expires the record is due, so that `next_eligible`
  -- recovers a record then: a due one before which no due record comes.
  pub mark_retry-due :
      (repo : Repository) (event_id : Bytes) (now early late : ℕ) (r : QuarantineRecord)
      → find (has_event_id event_id) repo.snapshot.records ≡ some r
      → now + 900 ≤ u64_max
      → early < now + 30
      → now + 900 ≤ late
      → late < r.expires_at
      → let after = (mark_retry host repo event_id now).0 in
        (q : QuarantineRecord) × (find (has_event_id event_id) after.snapshot.records ≡ some q)
        × (q.attempt_count ≡ min 65535 (r.attempt_count + 1))
        × (is_due early q ≡ false)
        × (is_due late q ≡ true)
        × Recovers after late
  mark_retry-due repo event_id now early late r found fits soon after_all alive =
      let again = find_updated event_id now repo.snapshot.records r found in
      let after = record repo {
        snapshot = record (repo.snapshot) {
          records = update_record event_id (retried now) repo.snapshot.records;
        };
      } in
      let due = retried_due now late r fits after_all alive in
      rw (mark_retry_stores repo event_id now r found) (
        retried now r,
        again,
        retried_attempts now r,
        retried_waits now early r fits soon,
        due,
        next_eligible-Recovers after late
            (found_due_there event_id late after.snapshot.records (retried now r) again due),
      )
