-- ===== src/Payloads/Examples.antt =====
-- The round trips of the payloads at concrete payloads.
use hivra_app.Prelude.{◌≡◌, refl, none, some, [], ◌∷◌, ◌++◌, ok, take, length}
use hivra_app.Primitives.{Bytes, seed, pulse}
use hivra_app.Payloads.{
  InvitationSent, invitation_sent_to_bytes, invitation_sent_from_bytes, InvitationAccepted,
  invitation_accepted_to_bytes, invitation_accepted_from_bytes, InvitationRejected,
  invitation_rejected_to_bytes, invitation_rejected_from_bytes, StarterCreated,
  starter_created_to_bytes, starter_created_from_bytes, StarterBurned, starter_burned_to_bytes,
  starter_burned_from_bytes, RelationshipEstablished, relationship_established_to_bytes,
  relationship_established_from_bytes, RelationshipBroken, relationship_broken_to_bytes,
  relationship_broken_from_bytes, other,
}
use hivra_app.Payloads.RoundTrip.{SentFits}
use hivra_app.Payloads.Established.{relationship_established-roundtrip}
use hivra_app.Payloads.Wire.{IsSentLength, invitation_sent-reencode}
use hivra_app.Samples.{key}

abbrev sent : InvitationSent
sent = record {
  invitation_id = key 5;
  starter_id = key 3;
  to_pubkey = key 2;
  sender_root_pubkey = some (key 9);
}

abbrev acceptance : InvitationAccepted
acceptance = record {
  invitation_id = key 5;
  from_pubkey = key 2;
  created_starter_id = key 6;
  accepter_root_pubkey = some (key 8);
}

abbrev rejection : InvitationRejected
rejection = record { invitation_id = key 5; reason = other }

abbrev creation : StarterCreated
creation = record { starter_id = key 3; nonce = key 4; kind = seed; network = 1 }

abbrev burning : StarterBurned
burning = record { starter_id = key 3; reason = 7 }

abbrev end_of_it : RelationshipBroken
end_of_it = record { peer_pubkey = key 2; own_starter_id = key 3; peer_root_pubkey = some (key 8) }

-- A sender's root without the peer's.
abbrev half_rooted : RelationshipEstablished
half_rooted = record {
  peer_pubkey = key 2;
  own_starter_id = key 3;
  peer_starter_id = key 6;
  kind = seed;
  invitation_id = key 5;
  sender_pubkey = key 1;
  sender_starter_type = pulse;
  sender_starter_id = key 3;
  peer_root_pubkey = none;
  sender_root_pubkey = some (key 9);
}

relationship_established-roundtrip_example :
    relationship_established_from_bytes (relationship_established_to_bytes half_rooted)
    ≡ ok (record half_rooted { sender_root_pubkey = none })
relationship_established-roundtrip_example =
    relationship_established-roundtrip half_rooted (record {
      peer_fits = refl;
      own_fits = refl;
      peer_starter_fits = refl;
      id_fits = refl;
      sender_fits = refl;
      sender_starter_fits = refl;
      peer_root_fits = tt;
      sender_root_fits = refl;
    })

-- An offer of the old form, with the kind's byte behind it.
abbrev old_offer : Bytes
old_offer = key 5 ++ (key 3 ++ (key 2 ++ (2 ∷ [])))

abbrev rootless : InvitationSent
rootless = record sent { sender_root_pubkey = none }

old_offer-parses : invitation_sent_from_bytes old_offer ≡ ok rootless
unfolding invitation_sent_from_bytes hivra_app.Payloads.read_fixed_32
old_offer-parses = refl

invitation_sent-reencode_example :
    IsSentLength (length old_offer)
    × SentFits rootless
    × (invitation_sent_to_bytes rootless ≡ take 96 old_offer)
invitation_sent-reencode_example = invitation_sent-reencode old_offer rootless old_offer-parses

abbrev answer : Bytes
answer = key 5 ++ (key 2 ++ (key 6 ++ key 8))

answer-parses : invitation_accepted_from_bytes answer ≡ ok acceptance
unfolding invitation_accepted_from_bytes hivra_app.Payloads.read_fixed_32
answer-parses = refl
