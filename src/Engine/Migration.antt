-- ===== src/Engine/Migration.antt =====
-- A v4 ledger migrated under an anchor that the engine prepares.
use hivra_app.Prelude.{◌≡◌, refl, true, none, some, ok, arith, replicate}
use hivra_app.Primitives.{Bytes, PubKey}
use hivra_app.LedgerV5.{Commitment, LedgerAnchorV5, legacy_v4, anchor_owner, anchor_commitment}
use hivra_app.Ledger.{Ledger, verify, migrate_v4}
use hivra_app.Ledger.Continuity.{IsContinuous-verifies}
use hivra_app.Ledger.Reachable.{started, migrate_v4-IsContinuous}
use hivra_app.Engine.{Engine, public_key, prepare_legacy_anchor_v5, verify_ledger_v5}
use hivra_app.Engine.Signing.{SignsAs}
use hivra_app.Engine.Verified.{AnchorSigned, verify_ledger_v5_iff}

module _ (sha256 : Bytes → Bytes) {C K : Type 0} (engine : Engine C K) where
  prepare_legacy_anchor_v5-signed :
      (owner : PubKey) (snapshot : Commitment)
      → SignsAs engine owner
      → (anchor : LedgerAnchorV5) × (prepare_legacy_anchor_v5 sha256 engine snapshot ≡ ok anchor)
        × (anchor_owner anchor ≡ owner)
        × AnchorSigned sha256 engine anchor
  unfolding prepare_legacy_anchor_v5 public_key anchor_commitment anchor_owner
  prepare_legacy_anchor_v5-signed owner snapshot s =
      let (signature, signs, verifies) =
        s.signs (anchor_commitment sha256 (legacy_v4 owner snapshot (replicate 64 0))) in
      (legacy_v4 owner snapshot signature, rw (s.has_key, signs) refl, refl, verifies)

  migrate_v4_succeeds :
      (l : Ledger) (anchor : LedgerAnchorV5)
      → l.continuity_v5 ≡ none
      → anchor_owner anchor ≡ l.owner
      → verify sha256 l ≡ true
      → (m : Ledger) × (migrate_v4 sha256 l anchor ≡ ok m)
  unfolding migrate_v4
  migrate_v4_succeeds l anchor n o v =
      (record l { continuity_v5 = some (started sha256 l anchor) }, ground arith)

  -- A v4 ledger of the key store's owner that verifies can be migrated: an anchor is prepared for
  -- any snapshot commitment, `migrate_v4` succeeds with it and keeps the events, and the engine
  -- verifies the continuous ledger that results.
  pub migrate_v4-prepared :
      (l : Ledger) (snapshot : Commitment)
      → SignsAs engine l.owner
      → l.continuity_v5 ≡ none
      → verify sha256 l ≡ true
      → (anchor : LedgerAnchorV5) × (m : Ledger) × (prepare_legacy_anchor_v5 sha256 engine snapshot
          ≡ ok anchor)
        × (migrate_v4 sha256 l anchor ≡ ok m)
        × (m.events ≡ l.events)
        × (verify_ledger_v5 sha256 engine m ≡ ok tt)
  migrate_v4-prepared l snapshot s n v =
      let (anchor, prepared, owner, signed) = prepare_legacy_anchor_v5-signed l.owner snapshot s in
      let (m, migrated) = migrate_v4_succeeds l anchor n owner v in
      let (events, h) = migrate_v4-IsContinuous sha256 l m anchor migrated in
      (
        anchor,
        m,
        prepared,
        migrated,
        events,
        (verify_ledger_v5_iff sha256 engine m (started sha256 l anchor) h.continuity).1
            (IsContinuous-verifies sha256 m (started sha256 l anchor) h, signed, tt),
      )
