-- ===== src/Engine/Prepare.antt =====
-- The signed domain events that the engine prepares (engine lib.rs).
use hivra_app.Prelude.{
  Option, none, some, replicate, Result, ok, err, ◌>>=◌, ◌==◌, if◌then◌else◌, ℕ,
}
use hivra_app.Primitives.{
  Bytes, PubKey, Signature, StarterId, StarterKind, Network, network_to_byte, Timestamp,
}
use hivra_app.Events.{
  Event, EventKind, new, new_v5, protocol_version, continuous_ledger_protocol_version,
  invitation_sent, invitation_accepted, invitation_rejected, invitation_expired, starter_created,
  starter_burned, relationship_established, relationship_broken,
}
use hivra_app.Payloads.{
  RejectReason, invitation_sent_to_bytes, invitation_accepted_to_bytes,
  invitation_rejected_to_bytes, invitation_expired_to_bytes, starter_created_to_bytes,
  starter_burned_to_bytes, RelationshipEstablished, relationship_established_to_bytes,
  relationship_broken_to_bytes,
}
use hivra_app.Engine.{
  Engine, EngineConfig, EngineError, keystore_error, invalid_accept_plan, PreparedEvent, map_err,
  now, random_id, public_key, sign_event,
}

-- The `match` on the configured version, which the code makes before and after the signing.
abbrev pub versioned :
    {K : Type 0}
    → EngineConfig
    → EventKind
    → Bytes
    → Timestamp
    → Signature
    → PubKey
    → Result (EngineError K) Event
versioned config kind payload timestamp signature signer =
    if config.domain_event_version == protocol_version
    then ok (new kind payload timestamp signature signer)
    else if config.domain_event_version == continuous_ledger_protocol_version
    then ok (new_v5 kind payload timestamp signature signer)
    else err invalid_accept_plan

module _ (sha256 : Bytes → Bytes) {C K : Type 0} (engine : Engine C K) where
  unfoldable pub prepare_event :
      EventKind → Bytes → Option PubKey → Result (EngineError K) PreparedEvent
  prepare_event kind payload recipient = do
    signer ← map_err keystore_error (public_key engine)
    unsigned ← versioned engine.config kind payload (now engine) (replicate 64 0) signer
    signature ← map_err keystore_error (sign_event sha256 engine unsigned)
    event ← versioned engine.config kind unsigned.payload (now engine) signature signer
    ok (record { event = event; recipient = recipient })

  unfoldable pub prepare_domain_event :
      EventKind → Bytes → Option PubKey → Result (EngineError K) PreparedEvent
  prepare_domain_event kind payload recipient = prepare_event kind payload recipient

  unfoldable pub prepare_invitation_sent : StarterId → PubKey → Result (EngineError K) PreparedEvent
  prepare_invitation_sent starter_id to_pubkey = do
    sender_root_pubkey ← map_err keystore_error (public_key engine)
    prepare_event invitation_sent
        (invitation_sent_to_bytes (record {
          invitation_id = random_id engine;
          starter_id = starter_id;
          to_pubkey = to_pubkey;
          sender_root_pubkey = some sender_root_pubkey;
        }))
        (some to_pubkey)

  unfoldable pub prepare_invitation_accepted :
      Bytes → PubKey → StarterId → Result (EngineError K) PreparedEvent
  prepare_invitation_accepted invitation_id from_pubkey created_starter_id = do
    accepter_root_pubkey ← map_err keystore_error (public_key engine)
    prepare_event invitation_accepted
        (invitation_accepted_to_bytes (record {
          invitation_id = invitation_id;
          from_pubkey = from_pubkey;
          created_starter_id = created_starter_id;
          accepter_root_pubkey = some accepter_root_pubkey;
        }))
        (some from_pubkey)

  unfoldable pub prepare_invitation_rejected :
      Bytes → PubKey → RejectReason → Result (EngineError K) PreparedEvent
  prepare_invitation_rejected invitation_id to_pubkey reason =
      prepare_event invitation_rejected
        (invitation_rejected_to_bytes (record { invitation_id = invitation_id; reason = reason }))
        (some to_pubkey)

  unfoldable pub prepare_invitation_expired : Bytes → Result (EngineError K) PreparedEvent
  prepare_invitation_expired invitation_id =
      prepare_event invitation_expired
        (invitation_expired_to_bytes (record { invitation_id = invitation_id })) none

  unfoldable pub prepare_starter_created :
      StarterId → Bytes → StarterKind → Network → Result (EngineError K) PreparedEvent
  prepare_starter_created starter_id nonce kind network =
      prepare_event starter_created
        (starter_created_to_bytes (record {
          starter_id = starter_id;
          nonce = nonce;
          kind = kind;
          network = network_to_byte network;
        }))
        none

  unfoldable pub prepare_starter_burned : StarterId → ℕ → Result (EngineError K) PreparedEvent
  prepare_starter_burned starter_id reason =
      prepare_event starter_burned
        (starter_burned_to_bytes (record { starter_id = starter_id; reason = reason })) none

  -- The code's ten parameters are the fields of the payload that it builds from them.
  unfoldable pub prepare_relationship_established :
      RelationshipEstablished → Result (EngineError K) PreparedEvent
  prepare_relationship_established payload =
      prepare_event relationship_established (relationship_established_to_bytes payload) none

  unfoldable pub prepare_relationship_broken :
      PubKey → StarterId → Option PubKey → Result (EngineError K) PreparedEvent
  prepare_relationship_broken peer_pubkey own_starter_id peer_root_pubkey =
      prepare_event relationship_broken
        (relationship_broken_to_bytes (record {
          peer_pubkey = peer_pubkey;
          own_starter_id = own_starter_id;
          peer_root_pubkey = peer_root_pubkey;
        }))
        none
