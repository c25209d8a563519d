-- ===== src/Engine/Signing.antt =====
-- What the engine relies on of its key store and cryptography, and what it signs.
use hivra_app.Prelude.{
  ◌≡◌, ◌≢◌, refl, sym, ◌⊎◌, inl, inr, arith, ℕ_discrete, Option, replicate, Result, ok, err, ap,
  ◌>>=◌,
}
use hivra_app.Primitives.{Bytes, PubKey, Signature}
use hivra_app.Events.{
  Event, EventKind, protocol_version, continuous_ledger_protocol_version, new, new_v5, event_id,
  event_preimage,
}
use hivra_app.Engine.{
  Engine, EngineError, invalid_accept_plan, PreparedEvent, now, public_key, sign_event,
  verify_event, map_err, keystore_error,
}
use hivra_app.Engine.Prepare.{prepare_event}

-- The key store has the owner's key, and what it signs is verified under that key.
pub record SignsAs {C K : Type 0} (engine : Engine C K) (owner : PubKey) : Type 0 where
  pub has_key : engine.keystore.public_key ≡ ok owner
  pub signs :
      (message : Bytes)
      → (signature : Signature) × (engine.keystore.sign message ≡ ok signature)
        × (engine.crypto.verify message owner signature ≡ ok tt)

-- A prepared event carries what it was prepared from, and its signature is the owner's.
pub record IsPrepared (sha256 : Bytes → Bytes) {C K : Type 0} (engine : Engine C K) (owner : PubKey)
    (kind : EventKind) (payload : Bytes) (event : Event) : Type 0 where
  pub kind_kept : event.kind ≡ kind
  pub payload_kept : event.payload ≡ payload
  pub version_configured : event.version ≡ engine.config.domain_event_version
  pub time_read : event.timestamp ≡ engine.time.now
  pub signer_owner : event.signer ≡ owner
  pub signature_verified : verify_event sha256 engine event owner ≡ ok tt

module _ (sha256 : Bytes → Bytes) {C K : Type 0} (engine : Engine C K) (owner : PubKey) where
  -- A step that begins with the key store's key goes on with the owner's.
  pub with_key :
      {A : Type 0} (f : PubKey → Result (EngineError K) A)
      → SignsAs engine owner
      → (map_err keystore_error engine.keystore.public_key >>= f) ≡ f owner
  with_key f s = ap (λ m. map_err keystore_error m >>= f) s.has_key

  -- The configured version is one of the two that events are prepared for.
  abbrev pub Supported : Type 0
  Supported =
      (engine.config.domain_event_version ≡ protocol_version)
      ⊎ (engine.config.domain_event_version ≡ continuous_ledger_protocol_version)

  pub prepare_event-versioned :
      (kind : EventKind) (payload : Bytes) (recipient : Option PubKey)
      → SignsAs engine owner
      → Supported
      → (p : PreparedEvent) × (prepare_event sha256 engine kind payload recipient ≡ ok p)
        × (p.recipient ≡ recipient)
        × IsPrepared sha256 engine owner kind payload p.event
  unfolding prepare_event verify_event sign_event public_key now new new_v5 event_id event_preimage
  prepare_event-versioned kind payload recipient s (inl v) =
      let (signature, signs, verifies) =
        s.signs (event_id sha256 (new kind payload engine.time.now (replicate 64 0) owner)) in
      (
        record { event = new kind payload engine.time.now signature owner; recipient = recipient },
        rw (s.has_key, v, signs) refl,
        refl,
        record {
          kind_kept = refl;
          payload_kept = refl;
          version_configured = sym v;
          time_read = refl;
          signer_owner = refl;
          signature_verified = verifies;
        },
      )
  prepare_event-versioned kind payload recipient s (inr v) =
      let (signature, signs, verifies) =
        s.signs (event_id sha256 (new_v5 kind payload engine.time.now (replicate 64 0) owner)) in
      (
        record {
          event = new_v5 kind payload engine.time.now signature owner;
          recipient = recipient;
        },
        rw (s.has_key, v, signs) refl,
        refl,
        record {
          kind_kept = refl;
          payload_kept = refl;
          version_configured = sym v;
          time_read = refl;
          signer_owner = refl;
          signature_verified = verifies;
        },
      )

  prepare_event-refused :
      (kind : EventKind) (payload : Bytes) (recipient : Option PubKey)
      → SignsAs engine owner
      → engine.config.domain_event_version ≢ protocol_version
      → engine.config.domain_event_version ≢ continuous_ledger_protocol_version
      → prepare_event sha256 engine kind payload recipient ≡ err invalid_accept_plan
  unfolding prepare_event public_key now
  prepare_event-refused kind payload recipient s n m = rw s.has_key (ground arith)

  -- With a key store that signs for the owner: if the configured version is 4 or 5, an event is
  -- prepared that carries the kind, payload, recipient, version, time and owner it was prepared
  -- from, and its signature is verified under the owner's key; with any other version the answer
  -- is `invalid_accept_plan`.
  pub prepare_event-IsPrepared :
      (kind : EventKind) (payload : Bytes) (recipient : Option PubKey)
      → SignsAs engine owner
      → (Supported
          × ((p : PreparedEvent) × (prepare_event sha256 engine kind payload recipient ≡ ok p)
              × (p.recipient ≡ recipient)
              × IsPrepared sha256 engine owner kind payload p.event))
        ⊎ ((engine.config.domain_event_version ≢ protocol_version)
            × (engine.config.domain_event_version ≢ continuous_ledger_protocol_version)
            × (prepare_event sha256 engine kind payload recipient ≡ err invalid_accept_plan))
  prepare_event-IsPrepared kind payload recipient s =
      elim (ℕ_discrete engine.config.domain_event_version protocol_version) [
        | yes four ↦ inl (inl four, prepare_event-versioned kind payload recipient s (inl four))
        | no not_four ↦
            elim (ℕ_discrete engine.config.domain_event_version
              continuous_ledger_protocol_version) [
                | yes five ↦
                    inl (inr five, prepare_event-versioned kind payload recipient s (inr five))
                | no not_five ↦ inr (
                  not_four,
                  not_five,
                  prepare_event-refused kind payload recipient s not_four not_five,
                )
              ]
      ]
