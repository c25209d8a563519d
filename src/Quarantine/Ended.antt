-- ===== src/Quarantine/Ended.antt =====
-- Where a record ends: consumed or expired, it leaves the records and its id has a tombstone.
use hivra_app.Prelude.{
  ℕ, ◌≡◌, refl, subst, ap, ◌∙◌, true, false, not, ◌||◌, some, List, [], ◌∷◌, ◌++◌, ok, arith, find,
  retain, any, any-append, any-sort_by, Bool-cases, Option-cases, inl, inr, eq_of_same,
}
use hivra_app.Primitives.{Bytes, bytes_eq, Bytes-discrete}
use hivra_app.Quarantine.{QuarantineRecord, Tombstone, Snapshot, Host}
use hivra_app.Quarantine.Records.{
  has_event_id, has_tombstone, tombstone_of, tombstone_le, append_tombstone,
}
use hivra_app.Quarantine.Store.{
  Repository, commit, has_terminal_evidence, mark_consumed, reason_consumed,
}
use hivra_app.Quarantine.Steps.{and_then_ok, with_tombstone, append_tombstone_cases}
use hivra_app.Quarantine.Reachable.{without_record}

pub find_has_id :
    (id : Bytes) (records : List QuarantineRecord) (r : QuarantineRecord)
    → find (has_event_id id) records ≡ some r
    → has_event_id id r ≡ true
unfolding find
find_has_id id [] r h = ground arith
find_has_id id (x ∷ records) r h = ground (arith, find_has_id id records r)

pub found_there :
    (id : Bytes) (records : List QuarantineRecord) (r : QuarantineRecord)
    → find (has_event_id id) records ≡ some r
    → any (has_event_id id) records ≡ true
unfolding find any
found_there id [] r h = ground arith
found_there id (x ∷ records) r h = ground (arith, found_there id records r)

any-without :
    (id : Bytes) (records : List QuarantineRecord)
    → any (has_event_id id) (retain (λ x. not (has_event_id id x)) records) ≡ false
unfolding any retain
any-without id [] = refl
any-without id (x ∷ records) = ground (arith, any-without id records)

-- Pushing a tombstone gives its id one, and leaves the others as they were.
has_tombstone-pushed :
    (s : Snapshot) (r : QuarantineRecord) (reason : Bytes) (now : ℕ) (id : Bytes)
    → has_tombstone (with_tombstone r reason now s).tombstones id
      ≡ (has_tombstone s.tombstones id || bytes_eq r.adapter_event_id id)
has_tombstone-pushed s r reason now id =
    any-sort_by tombstone_le (λ t. bytes_eq t.adapter_event_id id)
      (s.tombstones ++ (tombstone_of r reason now ∷ []))
    ∙ any-append (λ t. bytes_eq t.adapter_event_id id) s.tombstones (tombstone_of r reason now ∷ [])
    ∙ (unfold any in ground arith)

has_tombstone-known :
    (tombstones : List Tombstone) (known id : Bytes)
    → has_tombstone tombstones known ≡ true
    → has_tombstone tombstones id ≡ (has_tombstone tombstones id || bytes_eq known id)
has_tombstone-known tombstones known id h = elim (Bool-cases (bytes_eq known id)) [
  | inl same ↦
      let there =
        subst (λ x. has_tombstone tombstones x ≡ true) (eq_of_same Bytes-discrete known id same)
          h in
      ground arith
  | inr other ↦ ground arith
]

module _ (host : Host) where
  -- Exactly the record's id has got a tombstone, and the records stay.
  pub append_tombstone-has :
      (s t : Snapshot) (r : QuarantineRecord) (reason : Bytes) (now : ℕ)
      → append_tombstone host s r reason now ≡ ok t
      → ((id : Bytes)
          → has_tombstone t.tombstones id
            ≡ (has_tombstone s.tombstones id || bytes_eq r.adapter_event_id id))
        × (t.records ≡ s.records)
  append_tombstone-has s t r reason now e = elim (append_tombstone_cases host s t r reason now e) [
    | inl (known, same) ↦
        rw same ((λ id. has_tombstone-known s.tombstones r.adapter_event_id id known), refl)
    | inr (room, same) ↦ rw same ((λ id. has_tombstone-pushed s r reason now id), refl)
  ]

  -- The steps of a successful `mark_consumed`.
  mark_consumed_steps :
      (repo : Repository) (event_id : Bytes) (now : ℕ)
      → (mark_consumed host repo event_id now).1 ≡ ok tt
      → (r : QuarantineRecord) × (next : Snapshot) × (find
            (has_event_id event_id)
            repo.snapshot.records
          ≡ some r)
        × (append_tombstone host repo.snapshot r reason_consumed now ≡ ok next)
        × ((mark_consumed host repo event_id now).0.snapshot ≡ without_record event_id next)
  unfolding mark_consumed
  mark_consumed_steps repo event_id now e =
      elim (Option-cases (find (has_event_id event_id) repo.snapshot.records)) [
        | inl lost ↦ ground arith
        | inr (r, found) ↦
            let (next, ended, same, _) =
              and_then_ok host repo (append_tombstone host repo.snapshot r reason_consumed now)
                (λ next. commit host repo (without_record event_id next) tt) tt (ground arith) in
            (r, next, found, ended, rw (found, mark_consumed) (ap (λ x. x.0.snapshot) same))
      ]

  -- What a successful `mark_consumed` leaves: the id was waiting, its records are gone and only
  -- they, and exactly its terminal evidence has been added.
  pub mark_consumed-ends :
      (repo : Repository) (event_id : Bytes) (now : ℕ)
      → (mark_consumed host repo event_id now).1 ≡ ok tt
      → let after = (mark_consumed host repo event_id now).0 in
        (any (has_event_id event_id) repo.snapshot.records ≡ true)
        × (any (has_event_id event_id) after.snapshot.records ≡ false)
        × (after.snapshot.records
            ≡ retain (λ r. not (has_event_id event_id r)) repo.snapshot.records)
        × ((id : Bytes)
            → has_terminal_evidence after id
              ≡ (has_terminal_evidence repo id || bytes_eq event_id id))
  unfolding has_terminal_evidence
  mark_consumed-ends repo event_id now e =
      let (r, next, found, ended, same) = mark_consumed_steps repo event_id now e in
      let (evidence, beside) =
        append_tombstone-has repo.snapshot next r reason_consumed now ended in
      let named : r.adapter_event_id ≡ event_id =
        eq_of_same Bytes-discrete r.adapter_event_id event_id
          (find_has_id event_id repo.snapshot.records r found) in
      (
        found_there event_id repo.snapshot.records r found,
        rw same (any-without event_id next.records),
        rw (same, beside) refl,
        (λ id. rw same (
            evidence id
            ∙ ap (λ x. has_tombstone repo.snapshot.tombstones id || bytes_eq x id) named)),
      )
