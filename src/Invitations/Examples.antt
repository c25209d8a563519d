-- ===== src/Invitations/Examples.antt =====
-- The invitations of concrete ledgers: an offer, and the offer called back.
use hivra_app.Prelude.{◌≡◌, ◌≤◌, refl, true, false, none, some, [], ◌∷◌, arith, length, inl, inr}
use hivra_app.Primitives.{Bytes, seed, pulse}
use hivra_app.Events.{Event}
use hivra_app.Ledger.{Ledger, append}
use hivra_app.Ledger.Reachable.{here, next, appended}
use hivra_app.Slots.{SlotLayout, occupied, locked, empty}
use hivra_app.Invitations.{InvitationRecord, outgoing, pending, expired}
use hivra_app.Invitations.Records.{invitations_with_status, offer_record}
use hivra_app.Invitations.View.{find_invitation}
use hivra_app.Invitations.Accept.{plan_accept_for_kind}
use hivra_app.Invitations.Follow.{follow_all, find_invitation-follow}
use hivra_app.Invitations.Status.{
  Keeps, find_invitation-final, IsRecorded, find_invitation-IsRecorded,
}
use hivra_app.Invitations.Unique.{Distinct, ids, invitations_with_status-Distinct}
use hivra_app.Invitations.Plan.{IsPlan, plan_accept_for_kind-IsPlan}
use hivra_app.Payloads.{InvitationSent}
use hivra_app.Samples.{key, toy_digest, created, offered, called_back, ledger_of, offering}

abbrev calling_back : Ledger
calling_back = ledger_of (created ∷ offered ∷ called_back ∷ [])

find_invitation-follow_example :
    find_invitation calling_back (key 5)
    ≡ follow_all (key 1) (key 5) none (created ∷ offered ∷ called_back ∷ [])
find_invitation-follow_example = find_invitation-follow calling_back (key 5)

invitations_with_status-Distinct_example : Distinct (ids (invitations_with_status calling_back))
invitations_with_status-Distinct_example = invitations_with_status-Distinct calling_back

-- The record of the offer, before and after the call back.
abbrev waiting : InvitationRecord
waiting = record {
  invitation_id = key 5;
  starter_id = key 3;
  starter_kind_hint = none;
  peer_pubkey = key 2;
  direction = outgoing;
  offer_signer = key 1;
  sender_root_pubkey = none;
  sender_transport_pubkey = key 1;
  sender_card_signature = none;
  recipient_pubkey = key 2;
  sent_at = 2;
  responded_at = none;
  responded_signer = none;
  has_local_terminal = false;
  status = pending;
}

abbrev ended : InvitationRecord
ended = record waiting {
  responded_at = some 3;
  responded_signer = some (key 1);
  has_local_terminal = true;
  status = expired;
}

found_ended : find_invitation calling_back (key 5) ≡ some ended
unfolding find_invitation hivra_app.Prelude.find invitations_with_status
    hivra_app.Invitations.Records.record_events hivra_app.Invitations.Records.record_event
    hivra_app.Invitations.Records.end_invitation hivra_app.Payloads.invitation_expired_from_bytes
    hivra_app.Invitations.Records.update_first hivra_app.Invitations.Records.add_offer
    hivra_app.Payloads.invitation_sent_from_bytes hivra_app.Prelude.any
    hivra_app.Primitives.Bytes-discrete offer_record hivra_app.Payloads.read_fixed_32
    hivra_app.Invitations.Records.apply_terminal hivra_app.Invitations.InvitationStatus-discrete
    hivra_app.Invitations.Records.valid_expiry_signer hivra_app.Events.EventKind-discrete
    hivra_app.Invitations.InvitationDirection-discrete
    hivra_app.Invitations.Records.is_local_terminal
    hivra_app.Invitations.invitation_sender_card_signature
    hivra_app.Invitations.invitation_sender_transport
    hivra_app.Invitations.invitation_starter_kind_hint hivra_app.Prelude.ℕ_discrete
found_ended = refl

find_invitation-IsRecorded_example : IsRecorded (key 1) ended
find_invitation-IsRecorded_example =
    find_invitation-IsRecorded calling_back (key 5) ended found_ended

find_invitation-final_example :
    (r : InvitationRecord) × (find_invitation (append calling_back offered).0 (key 5) ≡ some r)
    × Keeps ended r
find_invitation-final_example =
    find_invitation-final toy_digest calling_back (append calling_back offered).0 (key 5) ended
      (next here (appended offered)) found_ended

abbrev two_taken : SlotLayout
two_taken = locked (key 3) ∷ empty ∷ occupied (key 6) ∷ empty ∷ empty ∷ []

plan_accept_for_kind-IsPlan_example :
    IsPlan offering two_taken seed (plan_accept_for_kind offering two_taken seed)
plan_accept_for_kind-IsPlan_example =
    plan_accept_for_kind-IsPlan offering two_taken seed (omega arith)
