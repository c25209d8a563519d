-- ===== src/Ledger/Duplicates.antt =====
-- Where the structural verification of a migrated ledger is weaker than `append_v5`: its loop
-- searches `self.events[..index]` for a duplicate, with `index` counting receipts, so that in a
-- migrated ledger it searches the legacy prefix and not the events before the receipt's own.
use hivra_app.Prelude.{
  suc, ◌≡◌, ◌≤◌, ◌∙◌, sym, false, List, [], ◌∷◌, ◌++◌, ok, err, arith, length, length-append,
  take-append_of_le, any, same_refl,
}
use hivra_app.Primitives.{Bytes, Bytes-discrete}
use hivra_app.Events.{Event, event_id}
use hivra_app.LedgerV5.{LedgerEntryV5}
use hivra_app.Ledger.{
  Ledger, ContinuousLedgerV5, extended, push_v5, append_v5, verify_v5_structure, tail_commitment_v5,
  duplicate_event,
}
use hivra_app.Ledger.Continuity.{IsContinuous, IsContinuous-verifies, Continues, is_new}
use hivra_app.Ledger.Extension.{PassesLoop, push_v5-IsContinuous, is_new-take, Continues-PassesLoop}

module _ (sha256 : Bytes → Bytes) where
  seen_last : (e : Event) (events : List Event) → is_new sha256 e (events ++ (e ∷ [])) ≡ false
  unfolding any
  seen_last e [] = rw (same_refl Bytes-discrete (event_id sha256 e))
  seen_last e (x ∷ events) = ground (arith, seen_last e events)

  append_v5_duplicate :
      (l : Ledger) (c : ContinuousLedgerV5) (entry : LedgerEntryV5)
      → IsContinuous sha256 l c
      → PassesLoop sha256 l c entry
      → entry.owner ≡ l.owner
      → is_new sha256 entry.event l.events ≡ false
      → append_v5 sha256 l entry ≡ (l, err duplicate_event)
  unfolding append_v5
  append_v5_duplicate l c entry h k o d = ground arith

  -- In a continuous ledger whose legacy prefix is longer than its receipts, an accepted event can
  -- stand twice without the verification finding it: with an entry that continues the ledger, and
  -- a second one for the same event in the next place, the ledger that stores both verifies,
  -- while `append_v5` refuses the second as a duplicate.
  pub verify_v5_structure-misses_duplicate :
      (l : Ledger) (c : ContinuousLedgerV5) (entry second : LedgerEntryV5)
      → IsContinuous sha256 l c
      → Continues sha256 l c entry
      → suc (length c.receipts) ≤ c.legacy_event_count
      → second.event ≡ entry.event
      → second.owner ≡ l.owner
      → second.sequence ≡ suc (length c.receipts)
      → tail_commitment_v5 sha256 (push_v5 sha256 l c entry) ≡ ok second.previous_commitment
      → (verify_v5_structure sha256
            (push_v5 sha256 (push_v5 sha256 l c entry) (extended sha256 c entry) second)
          ≡ ok tt)
        × (append_v5 sha256 (push_v5 sha256 l c entry) second
            ≡ (push_v5 sha256 l c entry, err duplicate_event))
  verify_v5_structure-misses_duplicate l c entry second h k room same_event owned sequence tail = (
    IsContinuous-verifies sha256 _ _ (push_v5-IsContinuous sha256 l' c' second h' passes),
    append_v5_duplicate l' c' second h' passes owned
        (rw same_event (seen_last entry.event l.events)),
  )
    where
      l' : Ledger
      l' = push_v5 sha256 l c entry

      c' : ContinuousLedgerV5
      c' = extended sha256 c entry

      h' : IsContinuous sha256 l' c'
      h' = push_v5-IsContinuous sha256 l c entry h (Continues-PassesLoop sha256 l c entry k)

      one_more : length c'.receipts ≡ suc (length c.receipts)
      one_more = omega (arith, length-append c.receipts (_ ∷ []))

      passes : PassesLoop sha256 l' c' second
      passes = record {
        version_ok = rw same_event k.version_ok;
        in_sequence = sequence ∙ sym one_more;
        follows_tail = tail;
        unseen_before =
            rw
              (
                same_event,
                one_more,
                take-append_of_le (suc (length c.receipts)) l.events (entry.event ∷ [])
                    (omega (arith, h.prefix_fits)),
              )
              (is_new-take sha256 entry.event (suc (length c.receipts)) l.events k.unseen);
      }
