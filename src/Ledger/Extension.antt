-- ===== src/Ledger/Extension.antt =====
-- Appending to a v5 ledger keeps it continuous.
use hivra_app.Prelude.{
  ℕ, ◌≡◌, ◌≢◌, ◌↔◌, refl, true, some, List, [], ◌∷◌, ◌++◌, ok, arith, length, length-append, take,
  drop, zip, zip-append, take-append_of_le, drop-append_of_le, length-drop, any, suc, zero, subst,
}
use hivra_app.Primitives.{Bytes}
use hivra_app.Events.{Event, continuous_ledger_protocol_version}
use hivra_app.LedgerV5.{LedgerEntryV5, anchor_commitment}
use hivra_app.Ledger.{
  Ledger, LedgerV5Receipt, ContinuousLedgerV5, extended, push_v5, append_v5, verify_v5_loop,
  tail_commitment_v5,
}
use hivra_app.Ledger.Continuity.{
  IsContinuous, Continues, is_new, previous_after, loop-append, tail-IsContinuous,
  append_v5_accepts,
}

pub length-zip :
    (xs : List LedgerV5Receipt) (ys : List Event)
    → length xs ≡ length ys
    → length (zip xs ys) ≡ length xs
length-zip [] ys h = refl
length-zip (x ∷ xs) [] h = absurd (omega arith)
length-zip (x ∷ xs) (y ∷ ys) h = omega (arith, length-zip xs ys (omega arith))

module _ (sha256 : Bytes → Bytes) where
  pub is_new-take :
      (e : Event) (n : ℕ) (events : List Event)
      → is_new sha256 e events ≡ true
      → is_new sha256 e (take n events) ≡ true
  unfolding any
  is_new-take e zero events h = refl
  is_new-take e (suc n) [] h = refl
  is_new-take e (suc n) (x ∷ events) h = ground (arith, is_new-take e n events)

  pub append_v5_result :
      (l : Ledger) (c : ContinuousLedgerV5) (entry : LedgerEntryV5)
      → l.continuity_v5 ≡ some c
      → (append_v5 sha256 l entry).1 ≡ ok tt
      → (append_v5 sha256 l entry).0 ≡ push_v5 sha256 l c entry
  unfolding append_v5
  append_v5_result l c entry h r = ground arith

  append_v5_refused :
      (l : Ledger) (entry : LedgerEntryV5)
      → (append_v5 sha256 l entry).1 ≢ ok tt
      → (append_v5 sha256 l entry).0 ≡ l
  unfolding append_v5
  append_v5_refused l entry r = ground arith

  -- What the verification loop will check of an entry: it looks for the event's identifier only
  -- among as many events as there are receipts.
  pub record PassesLoop (l : Ledger) (c : ContinuousLedgerV5) (entry : LedgerEntryV5) : Type 0 where
    pub version_ok : entry.event.version ≡ continuous_ledger_protocol_version
    pub in_sequence : entry.sequence ≡ length c.receipts
    pub follows_tail : tail_commitment_v5 sha256 l ≡ ok entry.previous_commitment
    pub unseen_before : is_new sha256 entry.event (take (length c.receipts) l.events) ≡ true

  pub Continues-PassesLoop :
      (l : Ledger) (c : ContinuousLedgerV5) (entry : LedgerEntryV5)
      → Continues sha256 l c entry
      → PassesLoop l c entry
  Continues-PassesLoop l c entry k = record {
    version_ok = k.version_ok;
    in_sequence = k.in_sequence;
    follows_tail = k.follows_tail;
    unseen_before = is_new-take entry.event (length c.receipts) l.events k.unseen;
  }

  module _ (l : Ledger) (c : ContinuousLedgerV5) (entry : LedgerEntryV5)
      (h : IsContinuous sha256 l c) (k : PassesLoop l c entry) where
    push_v5-loop :
        verify_v5_loop sha256 l.owner
          (l.events ++ (entry.event ∷ []))
          0
          (anchor_commitment sha256 c.anchor)
          (zip
            (extended sha256 c entry).receipts
            (drop c.legacy_event_count (l.events ++ (entry.event ∷ []))))
        ≡ ok tt
    push_v5-loop =
        let rest = drop c.legacy_event_count l.events in
        let sizes : length c.receipts ≡ length rest =
          omega (arith, h.receipts_match, length-drop c.legacy_event_count l.events) in
        let paired : length (zip c.receipts rest) ≡ length c.receipts =
          length-zip c.receipts rest sizes in
        rw
          (
            drop-append_of_le c.legacy_event_count l.events (entry.event ∷ []) h.prefix_fits,
            zip-append c.receipts rest _ entry.event sizes,
          )
          (loop-append sha256 l.owner l.events entry.event 0 (anchor_commitment sha256 c.anchor)
            (zip c.receipts rest) _ (omega (arith, paired, h.receipts_match, h.prefix_fits))
            h.receipts_valid k.version_ok (omega (arith, paired, k.in_sequence)) follows
            (subst (λ n. is_new sha256 entry.event (take n l.events) ≡ true) (omega (arith, paired))
              k.unseen_before))
      where
        follows :
            entry.previous_commitment
            ≡ previous_after sha256 l.owner
                (anchor_commitment sha256 c.anchor)
                (zip c.receipts (drop c.legacy_event_count l.events))
        follows = cc (k.follows_tail, tail-IsContinuous sha256 l c h)

    pub push_v5-IsContinuous :
        IsContinuous sha256 (push_v5 sha256 l c entry) (extended sha256 c entry)
    push_v5-IsContinuous = record {
      continuity = refl;
      owner_anchored = h.owner_anchored;
      prefix_fits = omega (arith, length-append l.events (entry.event ∷ []), h.prefix_fits);
      receipts_match = omega (
        arith,
        length-append l.events (entry.event ∷ []),
        length-append {A = LedgerV5Receipt} c.receipts (
            record {
              sequence = entry.sequence;
              previous_commitment = entry.previous_commitment;
              signature = entry.signature;
            }
            ∷ []),
        h.prefix_fits,
        h.receipts_match,
      );
      prefix_valid = λ p.
          rw (take-append_of_le c.legacy_event_count l.events (entry.event ∷ []) h.prefix_fits)
            (h.prefix_valid p);
      receipts_valid = push_v5-loop;
    }

  -- On a continuous v5 ledger `append_v5` takes exactly the entries that continue it (same owner,
  -- version 5, the next sequence number, the tail's commitment, an unseen event identifier); the
  -- ledger then holds the event at its end and is continuous with one more receipt, and a
  -- refused entry leaves the ledger as it was.
  pub append_v5-exact :
      (l : Ledger) (c : ContinuousLedgerV5) (entry : LedgerEntryV5)
      → IsContinuous sha256 l c
      → (((append_v5 sha256 l entry).1 ≡ ok tt) ↔ Continues sha256 l c entry)
        × ((append_v5 sha256 l entry).1 ≡ ok tt
            → ((append_v5 sha256 l entry).0.events ≡ l.events ++ (entry.event ∷ []))
              × IsContinuous sha256 (append_v5 sha256 l entry).0 (extended sha256 c entry))
        × ((append_v5 sha256 l entry).1 ≢ ok tt → (append_v5 sha256 l entry).0 ≡ l)
  append_v5-exact l c entry h =
      let accepts = append_v5_accepts sha256 l c entry h.continuity h.owner_anchored in
      (
        accepts,
        λ r.
            rw (append_v5_result l c entry h.continuity r) (
              refl,
              push_v5-IsContinuous l c entry h (Continues-PassesLoop l c entry (accepts.0 r)),
            ),
        append_v5_refused l entry,
      )
