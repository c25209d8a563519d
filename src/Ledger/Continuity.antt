-- ===== src/Ledger/Continuity.antt =====
-- The v5 ledger: the structure that verification finds, and that appending keeps it.
use hivra_app.Prelude.{
  ℕ, suc, ◌+◌, ◌-◌, ◌≡◌, ◌↔◌, ◌≤◌, ◌<◌, refl, Bool, true, not, some, List, [], ◌∷◌, ◌++◌, ok, arith,
  get_last?, length, take, drop, zip, take-append_of_le, length-drop, any, get_last?-drop,
}
use hivra_app.Primitives.{Bytes, PubKey, bytes_eq}
use hivra_app.Events.{Event, event_id, continuous_ledger_protocol_version}
use hivra_app.LedgerV5.{
  Commitment, LedgerEntryV5, anchor_owner, anchor_commitment, entry_commitment,
}
use hivra_app.Ledger.{
  Ledger, LedgerV5Receipt, ContinuousLedgerV5, entry_of, tail_of, tail_commitment_v5, append_v5,
  verify_v5_loop, verify_v5_structure, verify_v4_events,
}

module _ (sha256 : Bytes → Bytes) where
  -- No event of the list has the identifier of the given one.
  abbrev pub is_new : Event → List Event → Bool
  is_new e events =
      not (any (λ existing. bytes_eq (event_id sha256 existing) (event_id sha256 e)) events)

  -- What verification finds of the continuity of a ledger.
  pub record IsContinuous (l : Ledger) (c : ContinuousLedgerV5) : Type 0 where
    pub continuity : l.continuity_v5 ≡ some c
    pub owner_anchored : anchor_owner c.anchor ≡ l.owner
    pub prefix_fits : c.legacy_event_count ≤ length l.events
    pub receipts_match : length c.receipts ≡ length l.events - c.legacy_event_count
    pub prefix_valid :
        0 < c.legacy_event_count
        → verify_v4_events (take c.legacy_event_count l.events) l.last_hash ≡ true
    pub receipts_valid :
        verify_v5_loop sha256 l.owner l.events 0
          (anchor_commitment sha256 c.anchor)
          (zip c.receipts (drop c.legacy_event_count l.events))
        ≡ ok tt

  pub IsContinuous-verifies :
      (l : Ledger) (c : ContinuousLedgerV5)
      → IsContinuous l c
      → verify_v5_structure sha256 l ≡ ok tt
  unfolding verify_v5_structure
  IsContinuous-verifies l c h = ground arith

  pub verified-IsContinuous :
      (l : Ledger) (c : ContinuousLedgerV5)
      → l.continuity_v5 ≡ some c
      → verify_v5_structure sha256 l ≡ ok tt
      → IsContinuous l c
  unfolding verify_v5_structure
  verified-IsContinuous l c e h = ground arith

  abbrev pub previous_after : PubKey → Commitment → List (LedgerV5Receipt × Event) → Commitment
  previous_after owner previous [] = previous
  previous_after owner previous (p ∷ pairs) =
      previous_after owner (entry_commitment sha256 (entry_of sha256 owner p)) pairs

  -- With an entry for every receipt, the tail commitment is where the loop ends.
  tail-previous_after :
      (owner : PubKey) (previous : Commitment) (receipts : List LedgerV5Receipt)
      (events : List Event)
      → length receipts ≡ length events
      → tail_of sha256 owner previous (get_last? receipts) (get_last? events)
        ≡ previous_after owner previous (zip receipts events)
  tail-previous_after owner previous [] events h = refl
  tail-previous_after owner previous (r ∷ receipts) [] h = absurd (omega arith)
  tail-previous_after owner previous (r ∷ []) (e ∷ []) h = refl
  tail-previous_after owner previous (r ∷ []) (e ∷ f ∷ events) h = absurd (omega arith)
  tail-previous_after owner previous (r ∷ s ∷ receipts) (e ∷ []) h = absurd (omega arith)
  tail-previous_after owner previous (r ∷ s ∷ receipts) (e ∷ f ∷ events) h =
      tail-previous_after owner previous (s ∷ receipts) (f ∷ events) (omega arith)

  -- The loop over one more entry, in a journal with one more event.
  pub loop-append :
      (owner : PubKey) (all : List Event) (x : Event) (index : ℕ) (previous : Commitment)
      (pairs : List (LedgerV5Receipt × Event)) (r : LedgerV5Receipt)
      → index + length pairs ≤ length all
      → verify_v5_loop sha256 owner all index previous pairs ≡ ok tt
      → x.version ≡ continuous_ledger_protocol_version
      → r.sequence ≡ index + length pairs
      → r.previous_commitment ≡ previous_after owner previous pairs
      → is_new x (take (index + length pairs) all) ≡ true
      → verify_v5_loop sha256 owner (all ++ (x ∷ [])) index previous (pairs ++ ((r, x) ∷ []))
        ≡ ok tt
  unfolding verify_v5_loop
  loop-append owner all x index previous [] r fits h v q p n =
      ground (arith, take-append_of_le index all (x ∷ []))
  loop-append owner all x index previous ((s, y) ∷ pairs) r fits h v q p n = ground (
    arith,
    take-append_of_le index all (x ∷ []),
    loop-append owner all x (suc index) (entry_commitment sha256 (entry_of sha256 owner (s, y)))
        pairs r,
  )

  tail_ignores_events :
      (owner : PubKey) (previous : Commitment) (receipts : List LedgerV5Receipt)
      (events : List Event) (n : ℕ)
      → n ≤ length events
      → length receipts ≡ length events - n
      → tail_of sha256 owner previous (get_last? receipts) (get_last? events)
        ≡ tail_of sha256 owner previous (get_last? receipts) (get_last? (drop n events))
  tail_ignores_events owner previous [] events n h k = refl
  tail_ignores_events owner previous (r ∷ receipts) events n h k =
      rw (get_last?-drop n events (omega arith))

  -- In a continuous ledger the tail commitment is the one that the next entry must name.
  pub tail-IsContinuous :
      (l : Ledger) (c : ContinuousLedgerV5)
      → IsContinuous l c
      → tail_commitment_v5 sha256 l
        ≡ ok (
            previous_after l.owner
              (anchor_commitment sha256 c.anchor)
              (zip c.receipts (drop c.legacy_event_count l.events)))
  unfolding tail_commitment_v5
  tail-IsContinuous l c h = ground (
    arith,
    tail_ignores_events l.owner (anchor_commitment sha256 c.anchor) c.receipts l.events
        c.legacy_event_count h.prefix_fits h.receipts_match,
    tail-previous_after l.owner (anchor_commitment sha256 c.anchor) c.receipts
        (drop c.legacy_event_count l.events),
    length-drop c.legacy_event_count l.events,
  )

  -- What `append_v5` demands of an entry.
  pub record Continues (l : Ledger) (c : ContinuousLedgerV5) (entry : LedgerEntryV5) : Type 0 where
    pub owner_same : entry.owner ≡ l.owner
    pub version_ok : entry.event.version ≡ continuous_ledger_protocol_version
    pub in_sequence : entry.sequence ≡ length c.receipts
    pub follows_tail : tail_commitment_v5 sha256 l ≡ ok entry.previous_commitment
    pub unseen : is_new entry.event l.events ≡ true

  pub append_v5_accepts :
      (l : Ledger) (c : ContinuousLedgerV5) (entry : LedgerEntryV5)
      → l.continuity_v5 ≡ some c
      → anchor_owner c.anchor ≡ l.owner
      → ((append_v5 sha256 l entry).1 ≡ ok tt) ↔ Continues l c entry
  unfolding append_v5
  append_v5_accepts l c entry h k = ground arith
