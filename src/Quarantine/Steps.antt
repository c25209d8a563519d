-- ===== src/Quarantine/Steps.antt =====
-- Case rules for the steps of the quarantine's operations.
use hivra_app.Quarantine.Text.{validate_event_id, encode_hex, merge_observations}
use hivra_app.Prelude.{
  ℕ, ◌≡◌, refl, true, false, none, some, List, [], ◌∷◌, ◌++◌, arith, Result, ok, err, find,
  Bool-cases, Option-cases, inl, inr, ◌>>=◌, ◌⊎◌, ltb, length, sort_by, ◌+◌, leb,
}
use hivra_app.Primitives.{Bytes}
use hivra_app.Transport.{DeliveryEnvelope}
use hivra_app.Quarantine.{
  QuarantineError, QuarantineRecord, Snapshot, Scope, Host, max_ciphertext_bytes, max_tombstones,
}
use hivra_app.Quarantine.Records.{
  has_event_id, seal_envelope, push_record, append_quarantine_record, append_tombstone,
  update_record, is_full, ciphertext_bytes, record_le, new_record, add_record, has_tombstone,
  tombstone_of, tombstone_le, tombstone_room,
}
use hivra_app.Quarantine.Store.{Repository, and_then}

-- A chain of results that is `ok` has come through its first step.
pub bind_ok :
    {A B : Type 0} {E : Type 0} (m : Result E A) (f : A → Result E B) (b : B)
    → (m >>= f) ≡ ok b
    → (a : A) × (m ≡ ok a) × (f a ≡ ok b)
bind_ok (ok a) f b h = (a, refl, h)
bind_ok (err e) f b h = ground arith

module _ (host : Host) {A B : Type 0} where
  pub and_then_ok :
      (repo : Repository) (m : Result QuarantineError A)
      (f : A → Repository × Result QuarantineError B) (b : B)
      → (and_then host repo m f).1 ≡ ok b
      → (a : A) × (m ≡ ok a) × (and_then host repo m f ≡ f a) × ((f a).1 ≡ ok b)
  and_then_ok repo (ok a) f b h = (a, refl, refl, h)
  and_then_ok repo (err e) f b h = ground arith

-- What an accepted `append_quarantine_record` did: it saw a waiting event again, or it pushed a
-- record that has room.
module _ (host : Host) (s t : Snapshot) (scope : Scope) (event_id : Bytes)
    (observed_by : List Bytes) (envelope : DeliveryEnvelope) (reason : Bytes) (now : ℕ) where
  abbrev pub Observed : Type 0
  Observed =
      (existing : QuarantineRecord) × (find (has_event_id event_id) s.records ≡ some existing)
      × (t ≡ record s {
        records =
            update_record event_id
              (λ r. record r { observed_by = merge_observations r.observed_by observed_by })
              s.records;
      })

  abbrev pub Pushed : Type 0
  Pushed =
      (ciphertext : Bytes) × (find (has_event_id event_id) s.records ≡ none)
      × (is_full s.records (encode_hex envelope.from) ≡ false)
      × (ltb max_ciphertext_bytes (ciphertext_bytes s.records + length ciphertext) ≡ false)
      × (t ≡ record s {
        records = sort_by record_le (
            s.records
            ++ (new_record scope event_id observed_by envelope reason now ciphertext ∷ []));
      })

  add_record-Pushed :
      find (has_event_id event_id) s.records ≡ none
      → add_record host s scope event_id observed_by envelope reason now ≡ ok t
      → Pushed
  unfolding push_record
  add_record-Pushed new h = elim (Bool-cases (is_full s.records (encode_hex envelope.from))) [
    | inl full ↦ ground arith
    | inr room ↦
        let (ciphertext, sealed, pushed) =
          bind_ok (seal_envelope host scope event_id envelope)
            (λ c. push_record host s (new_record scope event_id observed_by envelope reason now c))
            t (ground arith) in
        (ciphertext, new, room, ground arith, ground arith)
  ]

  pub append_quarantine_record_cases :
      append_quarantine_record host s scope event_id observed_by envelope reason now ≡ ok t
      → Observed ⊎ Pushed
  unfolding append_quarantine_record
  append_quarantine_record_cases h =
      let (_, valid, done) = bind_ok (validate_event_id event_id) _ t h in
      elim (Option-cases (find (has_event_id event_id) s.records)) [
        | inl new ↦ inr (add_record-Pushed new (ground arith))
        | inr (existing, found) ↦ inl (existing, found, ground arith)
      ]

abbrev pub with_tombstone : QuarantineRecord → Bytes → ℕ → Snapshot → Snapshot
with_tombstone r reason now s = record s {
  tombstones = sort_by tombstone_le (s.tombstones ++ (tombstone_of r reason now ∷ []));
}

-- What an accepted `append_tombstone` did: nothing for a known id, or it added one that has room.
pub append_tombstone_cases :
    (host : Host) (s t : Snapshot) (r : QuarantineRecord) (reason : Bytes) (now : ℕ)
    → append_tombstone host s r reason now ≡ ok t
    → ((has_tombstone s.tombstones r.adapter_event_id ≡ true) × (t ≡ s))
      ⊎ ((leb max_tombstones (length s.tombstones) ≡ false) × (t ≡ with_tombstone r reason now s))
unfolding append_tombstone
append_tombstone_cases host s t r reason now e =
    elim (Bool-cases (has_tombstone s.tombstones r.adapter_event_id)) [
      | inl known ↦ inl (known, ground arith)
      | inr new ↦ elim (Bool-cases (leb max_tombstones (length s.tombstones))) [
        | inl full ↦ ground arith
        | inr room ↦
            let (_, fits, pushed) =
              bind_ok
                (tombstone_room (host.tombstones_size s.tombstones)
                  (host.tombstone_size (tombstone_of r reason now)))
                (λ _. ok (with_tombstone r reason now s)) t (ground arith) in
            inr (room, ground arith)
      ]
    ]
