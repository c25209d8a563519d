-- ===== src/Engine/Verified.antt =====
-- `verify_ledger_v5`: what the verification of a continuous ledger amounts to.
use hivra_app.Prelude.{
  ◌≡◌, refl, ◌↔◌, arith, some, List, [], ◌∷◌, Result, ok, err, All, map, zip, ◌>>◌, drop,
}
use hivra_app.Primitives.{Bytes}
use hivra_app.LedgerV5.{
  LedgerAnchorV5, fresh, legacy_v4, anchor_owner, anchor_signature, anchor_commitment,
  LedgerEntryV5,
}
use hivra_app.Ledger.{Ledger, ContinuousLedgerV5, verify_v5_structure, v5_entries, entry_of}
use hivra_app.Engine.{
  Engine, map_err, structure_error, domain_signature_error, entry_signature_error,
  verify_domain_event_v5, verify_ledger_entry_v5, verify_anchor, verify_entries, verify_ledger_v5,
}

-- The entries of a continuous ledger.
abbrev pub entries_of : (Bytes → Bytes) → Ledger → ContinuousLedgerV5 → List LedgerEntryV5
entries_of sha256 l c =
    map (entry_of sha256 l.owner) (zip c.receipts (drop c.legacy_event_count l.events))

-- A check that is followed by others passes exactly when it passes and so do they.
both_ok :
    {E F : Type 0} (f : E → F) (m : Result E (Unit {0})) (k : Result F (Unit {0}))
    → ((map_err f m >> k) ≡ ok tt) ↔ ((m ≡ ok tt) × (k ≡ ok tt))
both_ok f (ok _) k = (λ h. (refl, h), λ h. h.1)
both_ok f (err e) k = (λ h. ground arith, λ h. ground arith)

then_ok :
    {F : Type 0} (m k : Result F (Unit {0})) → ((m >> k) ≡ ok tt) ↔ ((m ≡ ok tt) × (k ≡ ok tt))
then_ok (ok _) k = (λ h. (refl, h), λ h. h.1)
then_ok (err e) k = (λ h. ground arith, λ h. ground arith)

module _ (sha256 : Bytes → Bytes) {C K : Type 0} (engine : Engine C K) where
  -- Both signatures of an entry, the event's and the ledger owner's, are verified.
  abbrev pub EntrySigned : LedgerEntryV5 → Type 0
  EntrySigned entry =
      (verify_domain_event_v5 sha256 engine entry.event ≡ ok tt)
      × (verify_ledger_entry_v5 sha256 engine entry ≡ ok tt)

  -- The anchor of a migrated ledger is signed by its owner; that of a fresh one needs no signature.
  abbrev pub AnchorSigned : LedgerAnchorV5 → Type 0
  AnchorSigned (fresh _) = Unit
  AnchorSigned (legacy_v4 owner snapshot signature) =
      engine.crypto.verify (anchor_commitment sha256 (legacy_v4 owner snapshot signature)) owner
        signature
      ≡ ok tt

  verify_anchor_iff :
      (anchor : LedgerAnchorV5) → (verify_anchor sha256 engine anchor ≡ ok tt) ↔ AnchorSigned anchor
  unfolding verify_anchor anchor_signature anchor_owner anchor_commitment
  verify_anchor_iff (fresh owner) = (λ _. tt, λ _. refl)
  verify_anchor_iff (legacy_v4 owner snapshot signature) = (λ h. ground arith, λ h. ground arith)

  verify_entries_iff :
      (entries : List LedgerEntryV5)
      → (verify_entries sha256 engine entries ≡ ok tt) ↔ All EntrySigned entries
  unfolding verify_entries
  verify_entries_iff [] = (λ _. tt, λ _. refl)
  verify_entries_iff (entry ∷ entries) =
      let rest = verify_entries_iff entries in
      let event =
        both_ok domain_signature_error (verify_domain_event_v5 sha256 engine entry.event) _ in
      let own =
        both_ok entry_signature_error (verify_ledger_entry_v5 sha256 engine entry)
          (verify_entries sha256 engine entries) in
      (
        λ h.
            let (first, more) = event.0 h in
            let (second, others) = own.0 more in ((first, second), rest.0 others),
        λ h. event.1 (h.0.0, own.1 (h.0.1, rest.1 h.1)),
      )

  v5_entries_lem :
      (l : Ledger) (c : ContinuousLedgerV5)
      → l.continuity_v5 ≡ some c
      → v5_entries sha256 l ≡ some (entries_of sha256 l c)
  unfolding v5_entries
  v5_entries_lem l c e = ground arith

  -- The three checks of a continuous ledger.
  verify_ledger_v5_checks :
      (l : Ledger) (c : ContinuousLedgerV5)
      → l.continuity_v5 ≡ some c
      → verify_ledger_v5 sha256 engine l ≡ (
          map_err structure_error (verify_v5_structure sha256 l)
          >> (verify_anchor sha256 engine c.anchor
              >> verify_entries sha256 engine (entries_of sha256 l c)))
  unfolding verify_ledger_v5
  verify_ledger_v5_checks l c e = simp (e, v5_entries_lem l c e)

  -- The engine accepts a continuous ledger exactly when its structure is verified, its anchor is
  -- signed where it is a migrated one, and both signatures of every entry are verified.
  pub verify_ledger_v5_iff :
      (l : Ledger) (c : ContinuousLedgerV5)
      → l.continuity_v5 ≡ some c
      → (verify_ledger_v5 sha256 engine l ≡ ok tt) ↔ (
          (verify_v5_structure sha256 l ≡ ok tt)
          × AnchorSigned c.anchor
          × All EntrySigned (entries_of sha256 l c))
  verify_ledger_v5_iff l c e = rw (verify_ledger_v5_checks l c e) (
      let structure = both_ok structure_error (verify_v5_structure sha256 l) _ in
      let signatures = then_ok (verify_anchor sha256 engine c.anchor) _ in
      let anchor = verify_anchor_iff c.anchor in
      let entries = verify_entries_iff (entries_of sha256 l c) in
      (
        λ h.
            let (shape, more) = structure.0 h in
            let (root, others) = signatures.0 more in (shape, anchor.0 root, entries.0 others),
        λ h. structure.1 (h.0, signatures.1 (anchor.1 h.1, entries.1 h.2)),
      ))
