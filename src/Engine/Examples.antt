-- ===== src/Engine/Examples.antt =====
-- The properties of the engine with a toy signature in place of the key store's.
use hivra_app.Payloads.RoundTrip.{EstablishedFits}
use hivra_app.Prelude.{
  ℕ, ◌≡◌, ◌≢◌, ◌↔◌, ◌⊎◌, refl, inl, inr, true, false, Option, none, some, List, [], ◌∷◌, ◌++◌,
  Result, ok, err, arith, same_refl, if◌then◌else◌, ◌&&◌, All,
}
use hivra_app.Primitives.{Bytes, Bytes-discrete, bytes_eq, PubKey, Signature, neste, seed}
use hivra_app.Events.{
  Event, starter_burned, invitation_sent, relationship_established, protocol_version,
  continuous_ledger_protocol_version,
}
use hivra_app.LedgerV5.{Commitment, LedgerAnchorV5, anchor_commitment, fresh, fresh_anchor_tag}
use hivra_app.Payloads.{InvitationAccepted, relationship_established_from_bytes}
use hivra_app.Ledger.{
  Ledger, ContinuousLedgerV5, new, fresh_v5, verify, migrate_v4, verify_v5_structure,
  tail_commitment_v5,
}
use hivra_app.Ledger.Continuity.{is_new}
use hivra_app.Invitations.{InvitationRecord, outgoing, pending}
use hivra_app.Invitations.View.{find_invitation, find_invitation_by_direction}
use hivra_app.Engine.{
  Engine, EngineConfig, EngineError, invalid_accept_plan, PreparedEvent, append_event, random_id,
  prepare_domain_event_v5, prepare_legacy_anchor_v5, verify_event, verify_ledger_v5,
}
use hivra_app.Engine.Prepare.{prepare_event, prepare_invitation_sent}
use hivra_app.Engine.Incoming.{established_from, effects_for_incoming_accept, starter_kind_for_id}
use hivra_app.Engine.Signing.{SignsAs, Supported, IsPrepared, prepare_event-IsPrepared}
use hivra_app.Engine.Verified.{entries_of, AnchorSigned, EntrySigned, verify_ledger_v5_iff}
use hivra_app.Engine.Attested.{Attests, append_v5-prepared}
use hivra_app.Engine.Migration.{migrate_v4-prepared}
use hivra_app.Engine.Offers.{
  with_event, prepare_invitation_sent-pending, effects_for_incoming_accept-established,
}
use hivra_app.Samples.{toy_digest, key, offering}

abbrev config_for : ℕ → EngineConfig
config_for version = record {
  network = neste;
  invitation_timeout = 86400;
  domain_event_version = version;
}

-- The engine of `key 1`: a signature is the digest of the message behind the key's first byte.
abbrev toy_engine : ℕ → Engine ℕ ℕ
toy_engine version = record {
  time = record { now = 50 };
  rng = record { fill_bytes = λ buffer. key 8 };
  crypto = record {
    verify = λ message pubkey signature.
        if bytes_eq pubkey (key 1) && bytes_eq signature (toy_digest (1 ∷ message))
        then ok tt
        else err 0;
    sign = λ message private. ok (toy_digest message);
    ecdh = λ private pubkey. err 0;
  };
  keystore = record {
    generate = ok (key 1);
    public_key = ok (key 1);
    sign = λ message. ok (toy_digest (1 ∷ message));
  };
  config = config_for version;
}

toy-SignsAs : (version : ℕ) → SignsAs (toy_engine version) (key 1)
toy-SignsAs version = record {
  has_key = refl;
  signs = λ message. (
    toy_digest (1 ∷ message),
    refl,
    ground (
      arith,
      same_refl Bytes-discrete (toy_digest (1 ∷ message)),
      same_refl Bytes-discrete (key 1),
    ),
  );
}

prepare_event-IsPrepared_example :
    (Supported toy_digest (toy_engine 5) (key 1)
      × ((p : PreparedEvent) × (prepare_event toy_digest
              (toy_engine 5)
              starter_burned
              (key 3 ++ (0 ∷ []))
              none
            ≡ ok p)
          × (p.recipient ≡ none)
          × IsPrepared toy_digest
              (toy_engine 5)
              (key 1)
              starter_burned
              (key 3 ++ (0 ∷ []))
              p.event))
    ⊎ ((continuous_ledger_protocol_version ≢ protocol_version)
        × (continuous_ledger_protocol_version ≢ continuous_ledger_protocol_version)
        × (prepare_event toy_digest (toy_engine 5) starter_burned (key 3 ++ (0 ∷ [])) none
            ≡ err invalid_accept_plan))
prepare_event-IsPrepared_example =
    prepare_event-IsPrepared toy_digest (toy_engine 5) (key 1) starter_burned (key 3 ++ (0 ∷ []))
      none (toy-SignsAs 5)

abbrev beginning : ContinuousLedgerV5
beginning = record { anchor = fresh (key 1); legacy_event_count = 0; receipts = [] }

abbrev blank : Ledger
blank = record { events = []; owner = key 1; last_hash = 0; continuity_v5 = some beginning }

blank-verified : verify_v5_structure toy_digest blank ≡ ok tt
unfolding verify_v5_structure Bytes-discrete hivra_app.LedgerV5.anchor_owner
    hivra_app.Ledger.verify_v5_loop
blank-verified = refl

verify_ledger_v5_iff_example : (verify_ledger_v5 toy_digest (toy_engine 5) blank ≡ ok tt) ↔ (
    (verify_v5_structure toy_digest blank ≡ ok tt)
    × AnchorSigned toy_digest (toy_engine 5) (fresh (key 1))
    × All (EntrySigned toy_digest (toy_engine 5)) (entries_of toy_digest blank beginning))
verify_ledger_v5_iff_example = verify_ledger_v5_iff toy_digest (toy_engine 5) blank beginning refl

blank-accepted : verify_ledger_v5 toy_digest (toy_engine 5) blank ≡ ok tt
blank-accepted = verify_ledger_v5_iff_example.1 (blank-verified, tt, tt)

abbrev blank_tail : Commitment
blank_tail = anchor_commitment toy_digest (fresh (key 1))

blank-tail : tail_commitment_v5 toy_digest blank ≡ ok blank_tail
unfolding tail_commitment_v5
blank-tail = refl

append_v5-prepared_example :
    (event : Event) × (prepare_domain_event_v5 toy_digest
        (toy_engine 5)
        starter_burned
        (key 3 ++ (0 ∷ []))
      ≡ ok event)
    × ((is_new toy_digest event [] ≡ false)
        ⊎ Attests toy_digest (toy_engine 5) blank beginning blank_tail event)
append_v5-prepared_example =
    append_v5-prepared toy_digest (toy_engine 5) blank beginning blank_tail starter_burned
      (key 3 ++ (0 ∷ [])) (toy-SignsAs 5) refl blank-accepted blank-tail

abbrev empty_v4 : Ledger
empty_v4 = record { events = []; owner = key 1; last_hash = 0; continuity_v5 = none }

empty_v4-verifies : verify toy_digest empty_v4 ≡ true
unfolding verify hivra_app.Ledger.verify_v4_events hivra_app.Ledger.verify_v4_loop
empty_v4-verifies = refl

migrate_v4-prepared_example :
    (anchor : LedgerAnchorV5) × (m : Ledger) × (prepare_legacy_anchor_v5 toy_digest
        (toy_engine 5)
        (key 9)
      ≡ ok anchor)
    × (migrate_v4 toy_digest empty_v4 anchor ≡ ok m)
    × (m.events ≡ [])
    × (verify_ledger_v5 toy_digest (toy_engine 5) m ≡ ok tt)
migrate_v4-prepared_example =
    migrate_v4-prepared toy_digest (toy_engine 5) empty_v4 (key 9) (toy-SignsAs 5) refl
      empty_v4-verifies

unlisted : find_invitation empty_v4 (random_id (toy_engine 4)) ≡ none
unfolding find_invitation random_id hivra_app.Prelude.find
    hivra_app.Invitations.Records.invitations_with_status
    hivra_app.Invitations.Records.record_events
unlisted = refl

prepare_invitation_sent-pending_example :
    (p : PreparedEvent) × (r : InvitationRecord) × (prepare_invitation_sent toy_digest
        (toy_engine 4)
        (key 3)
        (key 2)
      ≡ ok p)
    × (p.recipient ≡ some (key 2))
    × (verify_event toy_digest (toy_engine 4) p.event (key 1) ≡ ok tt)
    × (find_invitation_by_direction
          (with_event empty_v4 p.event)
          (random_id (toy_engine 4))
          outgoing
        ≡ some r)
    × (r.status ≡ pending)
    × (r.starter_id ≡ key 3)
    × (r.recipient_pubkey ≡ key 2)
    × (r.sender_root_pubkey ≡ some (key 1))
    × (r.sent_at ≡ 50)
unfolding random_id hivra_app.Engine.random_32
prepare_invitation_sent-pending_example =
    prepare_invitation_sent-pending toy_digest (toy_engine 4) empty_v4 (key 3) (key 2)
      (toy-SignsAs 4) (inl refl) refl refl refl refl unlisted

-- The record of the offer `key 5` in `offering`.
abbrev offer_of_five : InvitationRecord
offer_of_five = record {
  invitation_id = key 5;
  starter_id = key 3;
  starter_kind_hint = none;
  peer_pubkey = key 2;
  direction = outgoing;
  offer_signer = key 1;
  sender_root_pubkey = none;
  sender_transport_pubkey = key 1;
  sender_card_signature = none;
  recipient_pubkey = key 2;
  sent_at = 2;
  responded_at = none;
  responded_signer = none;
  has_local_terminal = false;
  status = pending;
}

abbrev acceptance : InvitationAccepted
acceptance = record {
  invitation_id = key 5;
  from_pubkey = key 1;
  created_starter_id = key 6;
  accepter_root_pubkey = some (key 2);
}

offer_found : find_invitation_by_direction offering (key 5) outgoing ≡ some offer_of_five
unfolding find_invitation_by_direction hivra_app.Prelude.find
    hivra_app.Invitations.Records.invitations_with_status
    hivra_app.Invitations.Records.record_events hivra_app.Invitations.Records.record_event
    hivra_app.Invitations.Records.add_offer hivra_app.Payloads.invitation_sent_from_bytes
    hivra_app.Prelude.any Bytes-discrete hivra_app.Invitations.Records.offer_record
    hivra_app.Payloads.read_fixed_32 hivra_app.Invitations.InvitationDirection-discrete
    hivra_app.Events.EventKind-discrete hivra_app.Invitations.invitation_starter_kind_hint
    hivra_app.Invitations.invitation_sender_transport
    hivra_app.Invitations.invitation_sender_card_signature
offer_found = refl

kind_known : starter_kind_for_id offering (key 3) ≡ some seed
unfolding starter_kind_for_id hivra_app.Engine.Incoming.first_created_kind
    hivra_app.Events.EventKind-discrete hivra_app.Payloads.starter_created_from_bytes
    hivra_app.Primitives.kind_from_u8 Bytes-discrete hivra_app.Payloads.read_fixed_32
kind_known = refl

fits : EstablishedFits (established_from offer_of_five seed (key 1) (key 2) acceptance)
fits = record {
  peer_fits = refl;
  own_fits = refl;
  peer_starter_fits = refl;
  id_fits = refl;
  sender_fits = refl;
  sender_starter_fits = refl;
  peer_root_fits = refl;
  sender_root_fits = refl;
}

effects_for_incoming_accept-established_example :
    (e : Event) × (effects_for_incoming_accept toy_digest (toy_engine 4) offering (key 2) acceptance
      ≡ ok (append_event e ∷ []))
    × (e.kind ≡ relationship_established)
    × (relationship_established_from_bytes e.payload
        ≡ ok (established_from offer_of_five seed (key 1) (key 2) acceptance))
    × (e.signer ≡ key 1)
    × (verify_event toy_digest (toy_engine 4) e (key 1) ≡ ok tt)
effects_for_incoming_accept-established_example =
    effects_for_incoming_accept-established toy_digest (toy_engine 4) offering (key 2) acceptance
      offer_of_five seed (toy-SignsAs 4) (inl refl) offer_found kind_known fits
