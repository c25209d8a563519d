-- ===== src/Ledger/Examples.antt =====
-- The properties of the ledger at concrete ledgers.
use hivra_app.Ledger.Duplicates.{verify_v5_structure-misses_duplicate}
use hivra_app.Prelude.{
  ℕ, ◌≡◌, ◌≢◌, ◌↔◌, ◌+◌, ◌*◌, ◌%◌, ◌≤◌, refl, inl, inr, true, none, some, List, [], ◌∷◌, ◌++◌, ok,
  err, arith, replicate, length, suc,
}
use hivra_app.Primitives.{Bytes, PubKey}
use hivra_app.Events.{Event, starter_burned, invitation_sent}
use hivra_app.LedgerV5.{
  LedgerEntryV5, LedgerAnchorV5, legacy_v4, unsigned, anchor_commitment, entry_commitment,
}
use hivra_app.Ledger.{
  Ledger, ContinuousLedgerV5, advance_hash, append, append_v5, new, fresh_v5, migrate_v4, verify,
  verify_v4_events, tail_commitment_v5, extended, push_v5, verify_v5_structure, duplicate_event,
}
use hivra_app.Ledger.Checksum.{IsHistoryV4, verify_v4_events_iff}
use hivra_app.Ledger.Journal.{append-exact}
use hivra_app.Ledger.Continuity.{IsContinuous, Continues}
use hivra_app.Ledger.Extension.{append_v5-exact}
use hivra_app.Ledger.Reachable.{
  appended, appended_v5, migrated, here, next, Reach-verify, migrate_v4-IsContinuous,
}
use hivra_app.Ledger.AppendOnly.{Extends, Reach-Extends}
use hivra_app.Samples.{toy_digest, key}
use hivra_app.Events

abbrev burn_payload : Bytes
burn_payload = key 3 ++ (0 ∷ [])

abbrev burn_v4 : ℕ → Event
burn_v4 at = record {
  version = 4;
  kind = starter_burned;
  payload = burn_payload;
  timestamp = at;
  signature = replicate 64 0;
  signer = key 1;
}

abbrev burn_v5 : ℕ → Event
burn_v5 at = record {
  version = 5;
  kind = starter_burned;
  payload = burn_payload;
  timestamp = at;
  signature = replicate 64 0;
  signer = key 1;
}

-- A v4 ledger with one event.
abbrev one_event : Ledger
one_event = record {
  events = burn_v4 10 ∷ [];
  owner = key 1;
  last_hash = advance_hash 0 (burn_v4 10);
  continuity_v5 = none;
}

one_event-verifies : verify_v4_events one_event.events one_event.last_hash ≡ true
unfolding verify_v4_events advance_hash hivra_app.Ledger.verify_v4_loop Events.event_kind_byte
    hivra_app.Prelude.any
one_event-verifies = refl

one_event-IsHistoryV4 : IsHistoryV4 one_event.events one_event.last_hash
one_event-IsHistoryV4 =
    (verify_v4_events_iff one_event.events one_event.last_hash).0 one_event-verifies

append-exact_example :
    (((append one_event (burn_v4 20)).1 ≡ ok tt)
      ↔ IsHistoryV4 (burn_v4 10 ∷ burn_v4 20 ∷ []) (advance_hash one_event.last_hash (burn_v4 20)))
    × ((append one_event (burn_v4 20)).1 ≡ ok tt
        → ((append one_event (burn_v4 20)).0.events ≡ burn_v4 10 ∷ burn_v4 20 ∷ [])
          × IsHistoryV4
              (append one_event (burn_v4 20)).0.events
              (append one_event (burn_v4 20)).0.last_hash)
    × ((append one_event (burn_v4 20)).1 ≢ ok tt → (append one_event (burn_v4 20)).0 ≡ one_event)
append-exact_example = append-exact one_event (burn_v4 20) refl one_event-IsHistoryV4

verify_v4_events_iff_example :
    (verify_v4_events one_event.events one_event.last_hash ≡ true)
    ↔ IsHistoryV4 one_event.events one_event.last_hash
verify_v4_events_iff_example = verify_v4_events_iff one_event.events one_event.last_hash

abbrev anchor : LedgerAnchorV5
anchor = legacy_v4 (key 1) (key 9) (replicate 64 0)

abbrev migration : ContinuousLedgerV5
migration = record { anchor = anchor; legacy_event_count = 1; receipts = [] }

abbrev carried : Ledger
carried = record one_event { continuity_v5 = some migration }

carried-migrated : migrate_v4 toy_digest one_event anchor ≡ ok carried
unfolding migrate_v4 verify verify_v4_events advance_hash hivra_app.Primitives.Bytes-discrete
    hivra_app.LedgerV5.anchor_owner hivra_app.Ledger.verify_v4_loop Events.event_kind_byte
    hivra_app.Prelude.any
carried-migrated = refl

migrate_v4-IsContinuous_example :
    (carried.events ≡ one_event.events) × IsContinuous toy_digest carried migration
migrate_v4-IsContinuous_example =
    migrate_v4-IsContinuous toy_digest one_event carried anchor carried-migrated

carried-IsContinuous : IsContinuous toy_digest carried migration
carried-IsContinuous =
    (migrate_v4-IsContinuous toy_digest one_event carried anchor carried-migrated).1

abbrev entry : LedgerEntryV5
entry = record {
  owner = key 1;
  sequence = 0;
  previous_commitment = anchor_commitment toy_digest anchor;
  event = burn_v5 20;
  signature = replicate 64 0;
}

append_v5-exact_example :
    (((append_v5 toy_digest carried entry).1 ≡ ok tt)
      ↔ Continues toy_digest carried migration entry)
    × ((append_v5 toy_digest carried entry).1 ≡ ok tt
        → ((append_v5 toy_digest carried entry).0.events ≡ burn_v4 10 ∷ burn_v5 20 ∷ [])
          × IsContinuous toy_digest
              (append_v5 toy_digest carried entry).0
              (extended toy_digest migration entry))
    × ((append_v5 toy_digest carried entry).1 ≢ ok tt
        → (append_v5 toy_digest carried entry).0 ≡ carried)
append_v5-exact_example = append_v5-exact toy_digest carried migration entry carried-IsContinuous

-- A v4 event, the migration and a v5 entry.
abbrev built : Ledger
built = (append_v5 toy_digest carried entry).0

Reach-verify_example : verify toy_digest (append (new (key 1)) (burn_v4 10)).0 ≡ true
Reach-verify_example =
    Reach-verify toy_digest (key 1) (append (new (key 1)) (burn_v4 10)).0
      (inl (next here (appended (burn_v4 10))))

Reach-Extends_example : Extends one_event built
Reach-Extends_example =
    Reach-Extends toy_digest
      (next (next here (migrated anchor carried-migrated)) (appended_v5 entry))

entry-Continues : Continues toy_digest carried migration entry
unfolding tail_commitment_v5 anchor_commitment hivra_app.Prelude.any
    hivra_app.Primitives.Bytes-discrete Events.event_id Events.event_preimage Events.event_kind_byte
    Events.be_bytes
entry-Continues = record {
  owner_same = refl;
  version_ok = refl;
  in_sequence = refl;
  follows_tail = refl;
  unseen = refl;
}

-- The entry's event once more.
abbrev again : LedgerEntryV5
again = record {
  owner = key 1;
  sequence = 1;
  previous_commitment = entry_commitment toy_digest entry;
  event = burn_v5 20;
  signature = replicate 64 0;
}

again-follows :
    tail_commitment_v5 toy_digest (push_v5 toy_digest carried migration entry)
    ≡ ok again.previous_commitment
unfolding tail_commitment_v5 anchor_commitment hivra_app.LedgerV5.with_signature unsigned
again-follows = refl

verify_v5_structure-misses_duplicate_example :
    (verify_v5_structure toy_digest (
        push_v5 toy_digest
          (push_v5 toy_digest carried migration entry)
          (extended toy_digest migration entry)
          again)
      ≡ ok tt)
    × (append_v5 toy_digest (push_v5 toy_digest carried migration entry) again
        ≡ (push_v5 toy_digest carried migration entry, err duplicate_event))
verify_v5_structure-misses_duplicate_example =
    verify_v5_structure-misses_duplicate toy_digest carried migration entry again
      carried-IsContinuous entry-Continues (omega arith) refl refl refl again-follows
