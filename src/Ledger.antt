-- ===== src/Ledger.antt =====
-- core/hivra-core/src/ledger.rs: the append-only journal, with the v4 checksum and the v5 receipts.
--
-- A method that takes `&mut self` returns the ledger after the call beside its result. The
-- checksum follows `core::hash` on a 64-bit little-endian target: an enum of `repr(u8)` is hashed
-- as one byte, a `u64` as its eight bytes, and a byte slice or array behind its length.
pub mod Checksum
pub mod Journal
pub mod Continuity
pub mod Extension
pub mod Reachable
pub mod AppendOnly
pub mod Duplicates
mod Examples
use Prim.Native.Nat.{bit_xor}
use hivra_app.Prelude.{
  ℕ, zero, suc, ◌+◌, ◌-◌, ◌*◌, ◌/◌, ◌%◌, ◌^◌, Bool, true, false, not, ◌||◌, ◌&&◌, Option, none,
  some, List, [], ◌∷◌, ◌++◌, Result, ok, err, ◌>>=◌, if◌then◌else◌, ltb, leb, ◌==◌, length, take,
  drop, zip, get_last?, any, retain, map, to_option,
}
use hivra_app.Primitives.{Bytes, PubKey, Signature, Timestamp, bytes_eq}
use hivra_app.Events.{
  Event, EventKind, event_eq, event_kind_eq, event_id, event_kind_byte, protocol_version,
  continuous_ledger_protocol_version,
}
use hivra_app.LedgerV5.{
  Commitment, LedgerAnchorV5, fresh, anchor_owner, anchor_commitment, LedgerEntryV5, unsigned,
  with_signature, entry_commitment, LedgerV5Error, not_continuous_ledger, anchor_owner_mismatch,
  entry_owner_mismatch, invalid_sequence, invalid_previous_commitment, duplicate_domain_event,
  wrong_event_version,
}
use mathlib.Core.List.{foldl}

pub data LedgerError : Type 0 where
  invalid_order wrong_version duplicate_event : LedgerError
  continuous : LedgerV5Error → LedgerError

pub record LedgerV5Receipt : Type 0 where
  pub sequence : ℕ
  pub previous_commitment : Commitment
  pub signature : Signature

pub record ContinuousLedgerV5 : Type 0 where
  pub anchor : LedgerAnchorV5
  pub legacy_event_count : ℕ
  pub receipts : List LedgerV5Receipt

pub record Ledger : Type 0 where
  pub events : List Event
  pub owner : PubKey
  pub last_hash : ℕ
  pub continuity_v5 : Option ContinuousLedgerV5

-- `SimpleHasher::write`
unfoldable pub hasher_write : ℕ → Bytes → ℕ
hasher_write state bytes = foldl (λ h b. bit_xor (h * 0x9e3779b97f4a7c15 % 2 ^ 64) b) state bytes

unfoldable pub le_bytes : ℕ → ℕ → Bytes
le_bytes zero x = []
le_bytes (suc n) x = (x % 256) ∷ le_bytes n (x / 256)

-- `impl Hash for Event`
unfoldable pub hash_event : Event → ℕ → ℕ
unfolding hasher_write le_bytes
hash_event e state = hasher_write state (
    event_kind_byte e.kind
    ∷ (le_bytes 8 (length e.payload)
        ++ (e.payload
            ++ (le_bytes 8 e.timestamp
                ++ (le_bytes 8 (length e.signature)
                    ++ (e.signature ++ (le_bytes 8 (length e.signer) ++ e.signer)))))))

-- One step of the checksum: a new hasher, the checksum so far, and the event.
unfoldable pub advance_hash : ℕ → Event → ℕ
unfolding hash_event
advance_hash hash e = hash_event e (hasher_write 0 (le_bytes 8 hash))

unfoldable pub new : PubKey → Ledger
new owner = record { events = []; owner = owner; last_hash = 0; continuity_v5 = none }

unfoldable pub fresh_v5 : PubKey → Ledger
fresh_v5 owner = record {
  events = [];
  owner = owner;
  last_hash = 0;
  continuity_v5 = some (record { anchor = fresh owner; legacy_event_count = 0; receipts = [] });
}

-- The test of an event against the time of the one before it.
abbrev pub is_before : Timestamp → Option Timestamp → Bool
is_before t none = false
is_before t (some last) = ltb t last

-- The loop of `verify_v4_events`: the events seen, the last time and the checksum so far.
unfoldable pub verify_v4_loop : List Event → Option Timestamp → ℕ → List Event → ℕ → Bool
verify_v4_loop seen last_ts hash [] expected = hash == expected
verify_v4_loop seen last_ts hash (e ∷ events) expected =
    if not (e.version == protocol_version)
    then false
    else if any (λ existing. event_eq existing e) seen
    then false
    else if is_before e.timestamp last_ts
    then false
    else verify_v4_loop (seen ++ (e ∷ [])) (some e.timestamp) (advance_hash hash e) events expected

unfoldable pub verify_v4_events : List Event → ℕ → Bool
verify_v4_events events expected_hash = verify_v4_loop [] none 0 events expected_hash

-- The test of an event against the last one of the journal.
abbrev pub out_of_order : Option Event → Event → Bool
out_of_order none e = false
out_of_order (some last) e = ltb e.timestamp last.timestamp

unfoldable pub append : Ledger → Event → Ledger × Result LedgerError (Unit {0})
append l e = elim l.continuity_v5 [
  | some _ ↦ (l, err (continuous wrong_event_version))
  | none ↦
      if not (e.version == protocol_version)
      then (l, err wrong_version)
      else if any (λ existing. event_eq existing e) l.events
      then (l, err duplicate_event)
      else if out_of_order (get_last? l.events) e
      then (l, err invalid_order)
      else (
        record l { last_hash = advance_hash l.last_hash e; events = l.events ++ (e ∷ []) },
        ok tt,
      )
]

unfoldable pub is_continuous_v5 : Ledger → Bool
is_continuous_v5 l = elim l.continuity_v5 [ none ↦ false | some _ ↦ true ]

unfoldable pub next_sequence_v5 : Ledger → Result LedgerV5Error ℕ
next_sequence_v5 l = elim l.continuity_v5 [
  | none ↦ err not_continuous_ledger
  | some continuity ↦ ok (length continuity.receipts)
]

unfoldable pub events_in_range : Ledger → Timestamp → Timestamp → List Event
events_in_range l from to = retain (λ e. leb from e.timestamp && leb e.timestamp to) l.events

unfoldable pub events_of_kind : Ledger → EventKind → List Event
events_of_kind l kind = retain (λ e. event_kind_eq e.kind kind) l.events

module _ (sha256 : Bytes → Bytes) where
  -- The entry of a receipt and its event.
  abbrev pub entry_of : PubKey → LedgerV5Receipt × Event → LedgerEntryV5
  entry_of owner (receipt, event) =
      with_signature (unsigned owner receipt.sequence receipt.previous_commitment event)
        receipt.signature

  -- `receipts.last().zip(events.last())`, and the anchor's commitment where one is missing.
  abbrev pub tail_of : PubKey → Commitment → Option LedgerV5Receipt → Option Event → Commitment
  tail_of owner anchor (some receipt) (some event) =
      entry_commitment sha256 (entry_of owner (receipt, event))
  tail_of owner anchor (some receipt) none = anchor
  tail_of owner anchor none event = anchor

  unfoldable pub tail_commitment_v5 : Ledger → Result LedgerV5Error Commitment
  tail_commitment_v5 l = elim l.continuity_v5 [
    | none ↦ err not_continuous_ledger
    | some continuity ↦ ok (
        tail_of l.owner (anchor_commitment sha256 continuity.anchor) (get_last? continuity.receipts)
          (get_last? l.events))
  ]

  unfoldable pub head_commitment_v5 : Ledger → Option Commitment
  head_commitment_v5 l = to_option (tail_commitment_v5 l)

  unfoldable pub v5_entries : Ledger → Option (List LedgerEntryV5)
  v5_entries l = elim l.continuity_v5 [
    | none ↦ none
    | some continuity ↦ some (
        map (entry_of l.owner)
          (zip continuity.receipts (drop continuity.legacy_event_count l.events)))
  ]

  -- The two pushes at the end of `append_v5`.
  abbrev pub extended : ContinuousLedgerV5 → LedgerEntryV5 → ContinuousLedgerV5
  extended continuity entry = record continuity {
    receipts =
        continuity.receipts
        ++ (record {
          sequence = entry.sequence;
          previous_commitment = entry.previous_commitment;
          signature = entry.signature;
        }
            ∷ []);
  }

  abbrev pub push_v5 : Ledger → ContinuousLedgerV5 → LedgerEntryV5 → Ledger
  push_v5 l continuity entry = record l {
    events = l.events ++ (entry.event ∷ []);
    continuity_v5 = some (extended continuity entry);
  }

  unfoldable pub append_v5 : Ledger → LedgerEntryV5 → Ledger × Result LedgerError (Unit {0})
  append_v5 l entry = elim l.continuity_v5 [
    | none ↦ (l, err (continuous not_continuous_ledger))
    | some continuity ↦
        if not (bytes_eq (anchor_owner continuity.anchor) l.owner)
        then (l, err (continuous anchor_owner_mismatch))
        else if not (bytes_eq entry.owner l.owner)
        then (l, err (continuous entry_owner_mismatch))
        else if not (entry.event.version == continuous_ledger_protocol_version)
        then (l, err (continuous wrong_event_version))
        else if not (entry.sequence == length continuity.receipts)
        then (l, err (continuous invalid_sequence))
        else elim (tail_commitment_v5 l) [
          | err e ↦ (l, err (continuous e))
          | ok tail ↦
              if not (bytes_eq entry.previous_commitment tail)
              then (l, err (continuous invalid_previous_commitment))
              else if any
                  (λ existing. bytes_eq (event_id sha256 existing) (event_id sha256 entry.event))
                  l.events
              then (l, err duplicate_event)
              else (push_v5 l continuity entry, ok tt)
        ]
  ]

  -- The loop of `verify_v5_structure`; `all` is `self.events`, and `index` counts receipts.
  unfoldable pub verify_v5_loop :
      PubKey
      → List Event
      → ℕ
      → Commitment
      → List (LedgerV5Receipt × Event)
      → Result LedgerV5Error (Unit {0})
  verify_v5_loop owner all index previous [] = ok tt
  verify_v5_loop owner all index previous ((receipt, event) ∷ rest) =
      if not (event.version == continuous_ledger_protocol_version)
      then err wrong_event_version
      else if not (receipt.sequence == index)
      then err invalid_sequence
      else if not (bytes_eq receipt.previous_commitment previous)
      then err invalid_previous_commitment
      else if any (λ existing. bytes_eq (event_id sha256 existing) (event_id sha256 event))
          (take index all)
      then err duplicate_domain_event
      else verify_v5_loop owner all (suc index)
          (entry_commitment sha256 (entry_of owner (receipt, event))) rest

  unfoldable pub verify_v5_structure : Ledger → Result LedgerV5Error (Unit {0})
  verify_v5_structure l = elim l.continuity_v5 [
    | none ↦ err not_continuous_ledger
    | some continuity ↦
        if not (bytes_eq (anchor_owner continuity.anchor) l.owner)
        then err anchor_owner_mismatch
        else if ltb (length l.events) continuity.legacy_event_count
            || not (length continuity.receipts == length l.events - continuity.legacy_event_count)
        then err invalid_sequence
        else if ltb 0 continuity.legacy_event_count
            && not (verify_v4_events (take continuity.legacy_event_count l.events) l.last_hash)
        then err invalid_previous_commitment
        else verify_v5_loop l.owner l.events 0 (anchor_commitment sha256 continuity.anchor)
            (zip continuity.receipts (drop continuity.legacy_event_count l.events))
  ]

  -- Without continuity the loop is that of `verify_v4_events` over all events.
  unfoldable pub verify : Ledger → Bool
  verify l = elim l.continuity_v5 [
    | some _ ↦ elim (verify_v5_structure l) [ ok _ ↦ true | err _ ↦ false ]
    | none ↦ verify_v4_events l.events l.last_hash
  ]

  unfoldable pub migrate_v4 : Ledger → LedgerAnchorV5 → Result LedgerV5Error Ledger
  migrate_v4 l anchor = elim l.continuity_v5 [
    | some _ ↦ err not_continuous_ledger
    | none ↦
        if not (bytes_eq (anchor_owner anchor) l.owner)
        then err anchor_owner_mismatch
        else if not (verify l)
        then err invalid_previous_commitment
        else ok (record l {
          continuity_v5 =
              some
                (record { anchor = anchor; legacy_event_count = length l.events; receipts = [] });
        })
  ]
