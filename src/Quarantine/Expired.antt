-- ===== src/Quarantine/Expired.antt =====
-- What `expire_due` leaves: no expired record, and a tombstone for each that was there.
use hivra_app.Prelude.{
  ℕ, ◌<◌, ◌≡◌, refl, subst, ap, sym, ◌∙◌, Bool, true, false, not, ◌&&◌, List, [], ◌∷◌, ok, arith,
  All, All-mono, length, find, retain, map, any, leb, ◌==◌, Bool-cases, Option-cases, inl, inr, ◌⊎◌,
  same_refl, eq_of_same,
}
use hivra_app.Primitives.{Bytes, bytes_eq, Bytes-discrete}
use hivra_app.Quarantine.{QuarantineRecord, Snapshot, Host}
use hivra_app.Quarantine.Records.{has_event_id, has_tombstone, append_tombstone}
use hivra_app.Quarantine.Store.{
  Repository, commit, has_terminal_evidence, expire_ids, expire_due, reason_expired,
  without_old_tombstones, expired_record_ids, persist,
}
use hivra_app.Quarantine.Steps.{bind_ok, and_then_ok}
use hivra_app.Quarantine.Ended.{find_has_id, append_tombstone-has}
use hivra_app.Quarantine.Reachable.{without_record}

-- Whether the id of a record is in the list.
abbrev pub is_named : List Bytes → QuarantineRecord → Bool
is_named ids r = any (λ id. bytes_eq r.adapter_event_id id) ids

retain_unnamed :
    (id : Bytes) (ids : List Bytes) (records : List QuarantineRecord)
    → retain (λ r. not (is_named ids r)) (retain (λ r. not (has_event_id id r)) records)
      ≡ retain (λ r. not (is_named (id ∷ ids) r)) records
unfolding retain any
retain_unnamed id ids [] = refl
retain_unnamed id ids (r ∷ records) = ground (arith, retain_unnamed id ids records)

retain_all : (records : List QuarantineRecord) → retain (λ r. not (is_named [] r)) records ≡ records
unfolding retain any
retain_all [] = refl
retain_all (r ∷ records) = ap (◌∷◌ r) (retain_all records)

-- The ids of the expired records name every expired record.
abbrev WaitsOrNamed : ℕ → List Bytes → QuarantineRecord → Type 0
WaitsOrNamed now ids r = (leb r.expires_at now ≡ false) ⊎ (is_named ids r ≡ true)

expired_ids : ℕ → List QuarantineRecord → List Bytes
expired_ids now records = map (λ r. r.adapter_event_id) (retain (λ r. leb r.expires_at now) records)

named_head :
    (now : ℕ) (r : QuarantineRecord) (records : List QuarantineRecord)
    → leb r.expires_at now ≡ true
    → is_named (expired_ids now (r ∷ records)) r ≡ true
unfolding expired_ids retain any
named_head now r records h = ground (arith, same_refl Bytes-discrete r.adapter_event_id)

named_tail :
    (now : ℕ) (x r : QuarantineRecord) (records : List QuarantineRecord)
    → is_named (expired_ids now records) r ≡ true
    → is_named (expired_ids now (x ∷ records)) r ≡ true
unfolding expired_ids retain any
named_tail now x r records h = ground arith

everywhere_waiting_or_named :
    (now : ℕ) (records : List QuarantineRecord)
    → All (WaitsOrNamed now (expired_ids now records)) records
everywhere_waiting_or_named now [] = tt
everywhere_waiting_or_named now (r ∷ records) = (
  elim (Bool-cases (leb r.expires_at now)) [
    | inl over ↦ inr (named_head now r records over)
    | inr waits ↦ inl waits
  ],
  All-mono (WaitsOrNamed now (expired_ids now records))
      (WaitsOrNamed now (expired_ids now (r ∷ records))) records
      (λ x c. elim c [ inl waits ↦ inl waits | inr named ↦ inr (named_tail now r x records named) ])
      (everywhere_waiting_or_named now records),
)

-- What no id names has not expired.
current_left :
    (now : ℕ) (ids : List Bytes) (records : List QuarantineRecord)
    → All (WaitsOrNamed now ids) records
    → All (λ r. now < r.expires_at) (retain (λ r. not (is_named ids r)) records)
unfolding retain
current_left now ids [] h = tt
current_left now ids (r ∷ records) (c, h) = elim (Bool-cases (is_named ids r)) [
  | inl named ↦ rw named (current_left now ids records h)
  | inr other ↦ rw other (
    elim c [ inl waits ↦ ground arith | inr named ↦ ground arith ],
    current_left now ids records h,
  )
]

module _ (host : Host) where
  expire_ids-ends :
      (now : ℕ) (ids : List Bytes) (s t : Snapshot)
      → expire_ids host now ids s ≡ ok t
      → (t.records ≡ retain (λ r. not (is_named ids r)) s.records)
        × All (λ id. has_tombstone t.tombstones id ≡ true) ids
        × ((id : Bytes)
            → has_tombstone s.tombstones id ≡ true
            → has_tombstone t.tombstones id ≡ true)
  unfolding expire_ids
  expire_ids-ends now [] s t e =
      let same : t ≡ s = ground arith in
      rw same (sym (retain_all s.records), tt, (λ id known. known))
  expire_ids-ends now (id ∷ ids) s t e = elim (Option-cases (find (has_event_id id) s.records)) [
    | inl lost ↦ ground arith
    | inr (r, found) ↦
        let (next, ended, rest) =
          bind_ok (append_tombstone host s r reason_expired now)
            (λ next. expire_ids host now ids (without_record id next)) t (ground arith) in
        let (left, evidence, kept) = expire_ids-ends now ids (without_record id next) t rest in
        let (grown, beside) = append_tombstone-has host s next r reason_expired now ended in
        let named : r.adapter_event_id ≡ id =
          eq_of_same Bytes-discrete r.adapter_event_id id (find_has_id id s.records r found) in
        (
          left
              ∙ retain_unnamed id ids next.records
              ∙ ap (retain (λ x. not (is_named (id ∷ ids) x))) beside,
          (
            kept id (
                subst (λ x. has_tombstone next.tombstones x ≡ true) named
                  (ground (
                    arith,
                    grown r.adapter_event_id,
                    same_refl Bytes-discrete r.adapter_event_id,
                  ))),
            evidence,
          ),
          (λ other k. kept other (ground (arith, grown other))),
        )
  ]

  none_to_expire :
      (now : ℕ) (ids : List Bytes) (s : Snapshot)
      → length ids ≡ 0
      → expire_ids host now ids s ≡ ok s
  unfolding expire_ids
  none_to_expire now [] s h = refl
  none_to_expire now (id ∷ ids) s h = absurd (omega arith)

  -- The steps of a successful `expire_due`.
  expire_due_steps :
      (repo : Repository) (now n : ℕ)
      → (expire_due host repo now).1 ≡ ok n
      → let ids = expired_record_ids host repo.snapshot now in
        (t : Snapshot) × (n ≡ length ids)
        × (expire_ids host now ids (without_old_tombstones host repo.snapshot now) ≡ ok t)
        × ((expire_due host repo now).0.snapshot ≡ t)
  unfolding expire_due
  expire_due_steps repo now n e =
      let kept = without_old_tombstones host repo.snapshot now in
      let ids = expired_record_ids host repo.snapshot now in
      let test = length ids == 0 && (length repo.snapshot.tombstones == length kept.tombstones) in
      elim (Bool-cases test) [
        | inl quiet ↦
            let idle : length ids ≡ 0 = ground arith in
            (kept, ground arith, none_to_expire now ids kept idle, rw (quiet, expire_due) refl)
        | inr busy ↦
            let (t, done, same, stored) =
              and_then_ok host (record repo { snapshot = kept }) (expire_ids host now ids kept)
                (λ next. commit host (record repo { snapshot = kept }) next (length ids)) n
                (ground arith) in
            let (_, kept_well, answer) =
              bind_ok (persist host (record repo { snapshot = t })) (λ _. ok (length ids)) n
                stored in
            (t, ground arith, done, rw (busy, expire_due) (ap (λ x. x.0.snapshot) same))
      ]

  -- What a successful `expire_due` leaves: its answer is the number of the records that had
  -- expired, those with `expires_at` at most `now`; exactly the records whose id is not that of an expired one are left, in their order,
  -- none of them has expired, and the id of each expired record has terminal evidence.
  pub expire_due-ends :
      (repo : Repository) (now n : ℕ)
      → (expire_due host repo now).1 ≡ ok n
      → let after = (expire_due host repo now).0 in
        let expired = retain (λ r. leb r.expires_at now) repo.snapshot.records in
        let ids = map (λ r. r.adapter_event_id) expired in
        (n ≡ length ids)
        × (after.snapshot.records ≡ retain (λ r. not (is_named ids r)) repo.snapshot.records)
        × All (λ r. now < r.expires_at) after.snapshot.records
        × All (λ id. has_terminal_evidence after id ≡ true) ids
  unfolding has_terminal_evidence retain expired_ids
  expire_due-ends repo now n e =
      let ids = expired_record_ids host repo.snapshot now in
      let (t, answer, done, same) = expire_due_steps repo now n e in
      let (left, evidence, _) =
        expire_ids-ends now ids (without_old_tombstones host repo.snapshot now) t done in
      rw same (
        answer,
        left,
        subst (All (λ r. now < r.expires_at)) (sym left) (
            current_left now ids repo.snapshot.records
              (everywhere_waiting_or_named now repo.snapshot.records)),
        evidence,
      )
