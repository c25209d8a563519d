-- ===== src/Engine/Attested.antt =====
-- What the engine prepares for a continuous ledger extends it, and the ledger stays verified.
use hivra_app.Prelude.{
  ℕ, ◌≡◌, refl, sym, ◌∙◌, ap, arith, [], ◌∷◌, ◌++◌, ok, All-append, zip, zip-append, drop,
  drop-append_of_le, length, length-drop, replicate, true, some, subst, Bool-cases, inl, inr, false,
  ◌⊎◌,
}
use mathlib.Core.List.{map-append}
use hivra_app.Primitives.{Bytes, PubKey}
use hivra_app.Events.{Event, EventKind, event_id, event_preimage, new_v5}
use hivra_app.LedgerV5.{Commitment, LedgerEntryV5, unsigned, with_signature, entry_commitment}
use hivra_app.Ledger.{
  Ledger, ContinuousLedgerV5, entry_of, extended, push_v5, append_v5, tail_commitment_v5,
}
use hivra_app.Ledger.Continuity.{
  is_new, IsContinuous, IsContinuous-verifies, verified-IsContinuous, Continues,
}
use hivra_app.Ledger.Extension.{append_v5-exact, append_v5_result}
use hivra_app.Engine.{
  Engine, now, public_key, prepare_domain_event_v5, prepare_ledger_entry_v5, verify_ledger_v5,
  verify_domain_event_v5, verify_ledger_entry_v5,
}
use hivra_app.Engine.Signing.{SignsAs}
use hivra_app.Engine.Verified.{entries_of, EntrySigned, verify_ledger_v5_iff}

module _ (sha256 : Bytes → Bytes) where
  entries-push_v5 :
      (l : Ledger) (c : ContinuousLedgerV5) (entry : LedgerEntryV5)
      → IsContinuous sha256 l c
      → entry.owner ≡ l.owner
      → entries_of sha256 (push_v5 sha256 l c entry) (extended sha256 c entry)
        ≡ entries_of sha256 l c ++ (entry ∷ [])
  unfolding unsigned with_signature
  entries-push_v5 l c entry h o =
      let rest = drop c.legacy_event_count l.events in
      let sizes : length c.receipts ≡ length rest =
        omega (arith, h.receipts_match, length-drop c.legacy_event_count l.events) in
      rw
        (
          drop-append_of_le c.legacy_event_count l.events (entry.event ∷ []) h.prefix_fits,
          zip-append c.receipts rest _ entry.event sizes,
          map-append (entry_of sha256 l.owner) (zip c.receipts rest) _,
          sym o,
        )
        refl

  module _ {C K : Type 0} (engine : Engine C K) where
    -- An event that the engine prepares for version 5 is verified under its signer.
    prepare_domain_event_v5-signed :
        (owner : PubKey) (kind : EventKind) (payload : Bytes)
        → SignsAs engine owner
        → (event : Event) × (prepare_domain_event_v5 sha256 engine kind payload ≡ ok event)
          × (event.version ≡ 5)
          × (verify_domain_event_v5 sha256 engine event ≡ ok tt)
    unfolding prepare_domain_event_v5 verify_domain_event_v5 public_key now event_id event_preimage
        new_v5
    prepare_domain_event_v5-signed owner kind payload s =
        let (signature, signs, verifies) =
          s.signs (event_id sha256 (new_v5 kind payload engine.time.now (replicate 64 0) owner)) in
        (
          new_v5 kind payload engine.time.now signature owner,
          rw (s.has_key, signs) refl,
          refl,
          verifies,
        )

    prepare_ledger_entry_v5-signed :
        (owner : PubKey) (sequence : ℕ) (previous : Commitment) (event : Event)
        → SignsAs engine owner
        → (entry : LedgerEntryV5) × (prepare_ledger_entry_v5 sha256 engine sequence previous event
            ≡ ok entry)
          × (entry.owner ≡ owner)
          × (entry.sequence ≡ sequence)
          × (entry.previous_commitment ≡ previous)
          × (entry.event ≡ event)
          × (verify_ledger_entry_v5 sha256 engine entry ≡ ok tt)
    unfolding prepare_ledger_entry_v5 verify_ledger_entry_v5 public_key unsigned with_signature
        entry_commitment
    prepare_ledger_entry_v5-signed owner sequence previous event s =
        let (signature, signs, verifies) =
          s.signs (entry_commitment sha256 (unsigned owner sequence previous event)) in
        (
          with_signature (unsigned owner sequence previous event) signature,
          rw (s.has_key, signs) refl,
          refl,
          refl,
          refl,
          refl,
          verifies,
        )

    -- The entry that the engine prepares for an event at the end of a ledger is taken there, and
    -- the ledger is verified with it.
    abbrev pub Attests : Ledger → ContinuousLedgerV5 → Commitment → Event → Type 0
    Attests l c tail event =
        (entry : LedgerEntryV5) × (prepare_ledger_entry_v5 sha256 engine (length c.receipts) tail
            event
          ≡ ok entry)
        × ((append_v5 sha256 l entry).1 ≡ ok tt)
        × (verify_ledger_v5 sha256 engine (append_v5 sha256 l entry).0 ≡ ok tt)

    -- A signed entry that continues a verified ledger is taken, and leaves the ledger verified.
    append_v5-signed :
        (l : Ledger) (c : ContinuousLedgerV5) (entry : LedgerEntryV5)
        → l.continuity_v5 ≡ some c
        → verify_ledger_v5 sha256 engine l ≡ ok tt
        → Continues sha256 l c entry
        → EntrySigned sha256 engine entry
        → ((append_v5 sha256 l entry).1 ≡ ok tt)
          × (verify_ledger_v5 sha256 engine (append_v5 sha256 l entry).0 ≡ ok tt)
    append_v5-signed l c entry e v k signed =
        let (shape, anchored, entries) = (verify_ledger_v5_iff sha256 engine l c e).0 v in
        let h = verified-IsContinuous sha256 l c e shape in
        let (takes, extends, _) = append_v5-exact sha256 l c entry h in
        let taken = takes.1 k in
        let (_, still) = extends taken in
        let pushed = append_v5_result sha256 l c entry e taken in
        (
          taken,
          (verify_ledger_v5_iff sha256 engine (append_v5 sha256 l entry).0 (extended sha256 c entry)
                still.continuity).1
              (
                IsContinuous-verifies sha256 (append_v5 sha256 l entry).0 (extended sha256 c entry)
                    still,
                anchored,
                rw (pushed, entries-push_v5 l c entry h k.owner_same)
                    (All-append (EntrySigned sha256 engine) (entries_of sha256 l c) (entry ∷ [])
                      entries (signed, tt)),
              ),
        )

    entry-extends :
        (l : Ledger) (c : ContinuousLedgerV5) (tail : Commitment) (event : Event)
        → SignsAs engine l.owner
        → l.continuity_v5 ≡ some c
        → verify_ledger_v5 sha256 engine l ≡ ok tt
        → tail_commitment_v5 sha256 l ≡ ok tail
        → event.version ≡ 5
        → verify_domain_event_v5 sha256 engine event ≡ ok tt
        → is_new sha256 event l.events ≡ true
        → Attests l c tail event
    entry-extends l c tail event s e v t version signed n =
        let (entry, attested, owner, sequence, previous, kept, own) =
          prepare_ledger_entry_v5-signed l.owner (length c.receipts) tail event s in
        let (taken, verified) =
          append_v5-signed l c entry e v
            (record {
              owner_same = owner;
              version_ok = ap (λ x. x.version) kept ∙ version;
              in_sequence = sequence;
              follows_tail = t ∙ ap ok (sym previous);
              unseen = subst (λ x. is_new sha256 x l.events ≡ true) (sym kept) n;
            })
            (subst (λ x. verify_domain_event_v5 sha256 engine x ≡ ok tt) (sym kept) signed, own) in
        (entry, attested, taken, verified)

    -- On a verified continuous ledger of the key store's owner, a domain event is prepared for
    -- every kind and payload. Either the ledger has an event with its identifier already, or the
    -- entry prepared for it with the next sequence number and the tail's commitment is accepted by
    -- `append_v5`, and the engine verifies the ledger that results.
    pub append_v5-prepared :
        (l : Ledger) (c : ContinuousLedgerV5) (tail : Commitment) (kind : EventKind)
        (payload : Bytes)
        → SignsAs engine l.owner
        → l.continuity_v5 ≡ some c
        → verify_ledger_v5 sha256 engine l ≡ ok tt
        → tail_commitment_v5 sha256 l ≡ ok tail
        → (event : Event) × (prepare_domain_event_v5 sha256 engine kind payload ≡ ok event)
          × ((is_new sha256 event l.events ≡ false) ⊎ Attests l c tail event)
    append_v5-prepared l c tail kind payload s e v t =
        let (event, prepared, version, signed) =
          prepare_domain_event_v5-signed l.owner kind payload s in
        (
          event,
          prepared,
          elim (Bool-cases (is_new sha256 event l.events)) [
            | inl n ↦ inr (entry-extends l c tail event s e v t version signed n)
            | inr seen ↦ inl seen
          ],
        )
