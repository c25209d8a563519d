-- ===== src/Ledger/Reachable.antt =====
-- Every ledger that the operations build: appends of both protocols and the migration between
-- them, in any order, successful or not.
use hivra_app.Prelude.{
  ◌≡◌, ◌≢◌, ◌⊎◌, inl, inr, refl, sym, ◌∙◌, true, none, some, [], Result, ok, err, arith, length,
  take_all,
}
use hivra_app.Primitives.{Bytes, PubKey}
use hivra_app.Events.{Event}
use hivra_app.LedgerV5.{LedgerEntryV5, LedgerAnchorV5, anchor_owner}
use hivra_app.Ledger.{
  Ledger, ContinuousLedgerV5, new, fresh_v5, append, append_v5, migrate_v4, verify,
  verify_v4_events, verify_v5_loop, LedgerError,
}
use hivra_app.Ledger.Checksum.{IsHistoryV4, verify_v4_events_iff}
use hivra_app.Ledger.Journal.{append-exact}
use hivra_app.Ledger.Continuity.{IsContinuous, IsContinuous-verifies}
use hivra_app.Ledger.Extension.{append_v5-exact}

module _ (sha256 : Bytes → Bytes) where
  pub data Step (l : Ledger) : Ledger → Type 0 where
    appended : (e : Event) → Step l (append l e).0
    appended_v5 : (entry : LedgerEntryV5) → Step l (append_v5 sha256 l entry).0
    migrated : (anchor : LedgerAnchorV5) {m : Ledger} → migrate_v4 sha256 l anchor ≡ ok m → Step l m

  pub data Reach (l : Ledger) : Ledger → Type 0 where
    here : Reach l l
    next : {m n : Ledger} → Reach l m → Step m n → Reach l n

  abbrev pub IsValid : Ledger → Type 0
  IsValid l =
      ((l.continuity_v5 ≡ none) × IsHistoryV4 l.events l.last_hash)
      ⊎ ((c : ContinuousLedgerV5) × IsContinuous sha256 l c)

  IsValid-verifies : (l : Ledger) → IsValid l → verify sha256 l ≡ true
  unfolding verify
  IsValid-verifies l (inl (none_here, h)) =
      rw (none_here, verify) ((verify_v4_events_iff l.events l.last_hash).1 h)
  IsValid-verifies l (inr (c, h)) =
      rw (h.continuity, verify) (rw (IsContinuous-verifies sha256 l c h))

  ok_or_not : (r : Result (LedgerError) (Unit {0})) → (r ≡ ok tt) ⊎ (r ≢ ok tt)
  ok_or_not (ok tt) = inl refl
  ok_or_not (err e) = inr (λ h. cc)

  append-none : (l : Ledger) (e : Event) → (append l e).0.continuity_v5 ≡ l.continuity_v5
  unfolding append
  append-none l e = ground arith

  append-some :
      (l : Ledger) (e : Event) {c : ContinuousLedgerV5}
      → l.continuity_v5 ≡ some c
      → (append l e).0 ≡ l
  unfolding append
  append-some l e h = ground arith

  append_v5-none :
      (l : Ledger) (entry : LedgerEntryV5)
      → l.continuity_v5 ≡ none
      → (append_v5 sha256 l entry).0 ≡ l
  unfolding append_v5
  append_v5-none l e h = ground arith

  append-IsValid : (l : Ledger) (e : Event) → IsValid l → IsValid (append l e).0
  append-IsValid l e (inl (n, h)) =
      let (_, good, bad) = append-exact l e n h in
      elim (ok_or_not (append l e).1) [
        | inl r ↦ inl (append-none l e ∙ n, (good r).1)
        | inr r ↦ rw (bad r) (inl (n, h))
      ]
  append-IsValid l e (inr (c, h)) = rw (append-some l e h.continuity) (inr (c, h))

  append_v5-IsValid :
      (l : Ledger) (entry : LedgerEntryV5) → IsValid l → IsValid (append_v5 sha256 l entry).0
  append_v5-IsValid l entry (inl (n, h)) = rw (append_v5-none l entry n) (inl (n, h))
  append_v5-IsValid l entry (inr (c, h)) =
      let (_, good, bad) = append_v5-exact sha256 l c entry h in
      elim (ok_or_not (append_v5 sha256 l entry).1) [
        | inl r ↦ inr (_, (good r).1)
        | inr r ↦ rw (bad r) (inr (c, h))
      ]

  -- The continuity that a migration starts.
  abbrev pub started : Ledger → LedgerAnchorV5 → ContinuousLedgerV5
  started l anchor = record { anchor = anchor; legacy_event_count = length l.events; receipts = [] }

  migrate_v4_parts :
      (l m : Ledger) (anchor : LedgerAnchorV5)
      → migrate_v4 sha256 l anchor ≡ ok m
      → (l.continuity_v5 ≡ none)
        × (anchor_owner anchor ≡ l.owner)
        × (verify sha256 l ≡ true)
        × (m ≡ record l { continuity_v5 = some (started l anchor) })
  unfolding migrate_v4
  migrate_v4_parts l m anchor e = ground arith

  verify-none :
      (l : Ledger)
      → l.continuity_v5 ≡ none
      → verify sha256 l ≡ verify_v4_events l.events l.last_hash
  unfolding verify
  verify-none l h = ground arith

  -- A v4 ledger that verifies is continuous after its migration, with its history as the prefix.
  pub migrate_v4-IsContinuous :
      (l m : Ledger) (anchor : LedgerAnchorV5)
      → migrate_v4 sha256 l anchor ≡ ok m
      → (m.events ≡ l.events) × IsContinuous sha256 m (started l anchor)
  migrate_v4-IsContinuous l m anchor e =
      let (n, owned, good, made) = migrate_v4_parts l m anchor e in
      rw made (
        refl,
        record {
          continuity = refl;
          owner_anchored = owned;
          prefix_fits = omega arith;
          receipts_match = omega arith;
          prefix_valid = λ _.
              rw (take_all (length l.events) l.events (omega arith)) (sym (verify-none l n) ∙ good);
          receipts_valid = unfold verify_v5_loop in refl;
        },
      )

  Step-IsValid : {l m : Ledger} → Step l m → IsValid l → IsValid m
  Step-IsValid {l} (appended e) h = append-IsValid l e h
  Step-IsValid {l} (appended_v5 entry) h = append_v5-IsValid l entry h
  Step-IsValid {l} {m} (migrated anchor e) h = inr (_, (migrate_v4-IsContinuous l m anchor e).1)

  Reach-IsValid : {l m : Ledger} → IsValid l → Reach l m → IsValid m
  Reach-IsValid h here = h
  Reach-IsValid h (next r st) = Step-IsValid st (Reach-IsValid h r)

  new-IsValid : (owner : PubKey) → IsValid (new owner)
  unfolding new
  new-IsValid owner = inl (refl, record { versions = tt; ordered = tt; checksum = refl })

  fresh_v5-IsValid : (owner : PubKey) → IsValid (fresh_v5 owner)
  unfolding fresh_v5 anchor_owner verify_v5_loop
  fresh_v5-IsValid owner = inr (
    _,
    record {
      continuity = refl;
      owner_anchored = refl;
      prefix_fits = omega arith;
      receipts_match = omega arith;
      prefix_valid = λ p. absurd (omega arith);
      receipts_valid = refl;
    },
  )

  -- Whatever appends, accepted or refused, and migrations are made on a new ledger of either
  -- protocol, the ledger verifies.
  pub Reach-verify :
      (owner : PubKey) (l : Ledger)
      → Reach (new owner) l ⊎ Reach (fresh_v5 owner) l
      → verify sha256 l ≡ true
  Reach-verify owner l (inl r) = IsValid-verifies l (Reach-IsValid (new-IsValid owner) r)
  Reach-verify owner l (inr r) = IsValid-verifies l (Reach-IsValid (fresh_v5-IsValid owner) r)
