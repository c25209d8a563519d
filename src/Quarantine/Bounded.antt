-- ===== src/Quarantine/Bounded.antt =====
-- The bounds of the quarantine, which every step of a snapshot keeps.
use hivra_app.Prelude.{
  ℕ, ◌+◌, ◌≤◌, ◌<◌, ◌≡◌, subst, Bool, true, false, none, List, [], ◌∷◌, ◌++◌, arith, length,
  length-append, length-sort_by, find, retain, sort_by, Bool-cases, inl, inr, ltb, ap, eq_of_same,
  if◌then◌else◌,
}
use hivra_app.Primitives.{Bytes, bytes_eq, Bytes-discrete}
use hivra_app.Quarantine.{
  QuarantineRecord, max_records, max_records_per_sender, max_ciphertext_bytes,
}
use hivra_app.Quarantine.Records.{
  has_event_id, from_sender, update_record, ciphertext_bytes, is_full, record_le,
}
use hivra_app.Quarantine.Counting.{
  tally, tally-length, tally-append, tally-sort_by, tally-retain, tally_unfound,
  tally-update_record, length-update_record, ciphertext_bytes-update_record,
  ciphertext_bytes-append, ciphertext_bytes-sort_by, ciphertext_bytes-retain,
}

-- The bounds on the waiting records; no two of them have the same event id.
pub record RecordsFit (records : List QuarantineRecord) : Type 0 where
  pub number : length records ≤ max_records
  pub of_sender : (sender : Bytes) → tally (from_sender sender) records ≤ max_records_per_sender
  pub of_id : (id : Bytes) → tally (has_event_id id) records ≤ 1
  pub bytes : ciphertext_bytes records ≤ max_ciphertext_bytes

pub retain-RecordsFit :
    (q : QuarantineRecord → Bool) (records : List QuarantineRecord)
    → RecordsFit records
    → RecordsFit (retain q records)
retain-RecordsFit q records h =
    let number = h.number in
    let bytes = h.bytes in
    record {
      number = omega (arith, tally-length q records);
      of_sender = λ sender.
          let bound = h.of_sender sender in
          omega (arith, tally-retain (from_sender sender) q records);
      of_id =
          λ id. let bound = h.of_id id in omega (arith, tally-retain (has_event_id id) q records);
      bytes = omega (arith, ciphertext_bytes-retain q records);
    }

-- A change of one record that keeps its id, sender and ciphertext.
pub update_record-RecordsFit :
    (f : QuarantineRecord → QuarantineRecord) (id : Bytes) (records : List QuarantineRecord)
    → ((r : QuarantineRecord) → (f r).adapter_event_id ≡ r.adapter_event_id)
    → ((r : QuarantineRecord) → (f r).authenticated_sender ≡ r.authenticated_sender)
    → ((r : QuarantineRecord) → (f r).envelope_ciphertext ≡ r.envelope_ciphertext)
    → RecordsFit records
    → RecordsFit (update_record id f records)
update_record-RecordsFit f id records hi hs hc h = record {
  number = rw (length-update_record f id records) h.number;
  of_sender = λ sender.
      rw
        (tally-update_record f id (from_sender sender) records
          (λ r. ap (λ x. bytes_eq x sender) (hs r)))
        (h.of_sender sender);
  of_id = λ other.
      rw
        (tally-update_record f id (has_event_id other) records
          (λ r. ap (λ x. bytes_eq x other) (hi r)))
        (h.of_id other);
  bytes = rw (ciphertext_bytes-update_record f id records hc) h.bytes;
}

tally_one :
    (p : QuarantineRecord → Bool) (r : QuarantineRecord) → tally p (r ∷ []) ≡ (if p r then 1 else 0)
unfolding retain
tally_one p r = ground arith

-- A record of a new id that has room.
pub push-RecordsFit :
    (records : List QuarantineRecord) (r : QuarantineRecord)
    → find (has_event_id r.adapter_event_id) records ≡ none
    → is_full records r.authenticated_sender ≡ false
    → ltb max_ciphertext_bytes (ciphertext_bytes records + length r.envelope_ciphertext) ≡ false
    → RecordsFit records
    → RecordsFit (sort_by record_le (records ++ (r ∷ [])))
push-RecordsFit records r new room fits h =
    let number = h.number in
    record {
      number =
          ground
            (arith, length-sort_by record_le (records ++ (r ∷ [])), length-append records (r ∷ []));
      of_sender = of_sender;
      of_id = of_id;
      bytes = ground (
        arith,
        ciphertext_bytes-sort_by record_le (records ++ (r ∷ [])),
        ciphertext_bytes-append records (r ∷ []),
      );
    }
  where
    -- A count after the push, where the pushed record counts only if there is room for it.
    counted :
        (p : QuarantineRecord → Bool) (limit : ℕ)
        → tally p records ≤ limit
        → (p r ≡ true → tally p records < limit)
        → tally p (sort_by record_le (records ++ (r ∷ []))) ≤ limit
    counted p limit before last = elim (Bool-cases (p r)) [
      | inl counts ↦
          let below = last counts in
          ground (
            arith,
            tally-sort_by p record_le (records ++ (r ∷ [])),
            tally-append p records (r ∷ []),
            tally_one p r,
          )
      | inr skips ↦ ground (
        arith,
        tally-sort_by p record_le (records ++ (r ∷ [])),
        tally-append p records (r ∷ []),
        tally_one p r,
      )
    ]

    of_sender :
        (sender : Bytes)
        → tally (from_sender sender) (sort_by record_le (records ++ (r ∷ [])))
          ≤ max_records_per_sender
    of_sender sender =
        counted (from_sender sender) max_records_per_sender (h.of_sender sender) (λ e.
          subst (λ s. tally (from_sender s) records < max_records_per_sender)
            (eq_of_same Bytes-discrete r.authenticated_sender sender e) (ground arith))

    of_id : (id : Bytes) → tally (has_event_id id) (sort_by record_le (records ++ (r ∷ []))) ≤ 1
    of_id id = counted (has_event_id id) 1 (h.of_id id) (λ e.
        subst (λ i. tally (has_event_id i) records < 1)
          (eq_of_same Bytes-discrete r.adapter_event_id id e)
          (omega (arith, tally_unfound (has_event_id r.adapter_event_id) records new)))
