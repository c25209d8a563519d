-- ===== src/Slots/Revoked.antt =====
-- Which created starters are revoked, read from the events by themselves: the two loops of
-- `revoked_created_starter_ids` (slot.rs) find the acceptances of the invitations that their sender
-- has called back.
use hivra_app.Prelude.{
  not, ◌≡◌, refl, Bool, true, false, ◌&&◌, ◌||◌, List, [], ◌∷◌, ok, err, arith, any, if◌then◌else◌,
  push_unique, any-same-push_unique, ◌∙◌,
}
use hivra_app.Primitives.{Bytes, Bytes-discrete, bytes_eq, StarterId}
use hivra_app.Events.{Event, event_kind_eq, invitation_accepted, invitation_expired}
use hivra_app.Payloads.{
  Parsed, InvitationAccepted, InvitationExpired, invitation_accepted_from_bytes,
  invitation_expired_from_bytes,
}
use hivra_app.Ledger.{Ledger}
use hivra_app.Slots.{
  contains_id, sender_signed_offer_exists, expired_ids, revoked_ids, revoked_created_starter_ids,
}

-- The expiry of the invitation, by the sender of one of the received offers.
abbrev pub calls_back : List Event → Bytes → Event → Bool
calls_back events invitation_id event =
    event_kind_eq event.kind invitation_expired
    && elim (invitation_expired_from_bytes event.payload) [
      | err _ ↦ false
      | ok p ↦
          sender_signed_offer_exists events event p.invitation_id
          && bytes_eq p.invitation_id invitation_id
    ]

-- The acceptance that created the starter, of an invitation that is called back.
abbrev pub revokes : List Event → StarterId → Event → Bool
revokes events id event =
    event_kind_eq event.kind invitation_accepted
    && elim (invitation_accepted_from_bytes event.payload) [
      | err _ ↦ false
      | ok p ↦ any (calls_back events p.invitation_id) events && bytes_eq p.created_starter_id id
    ]

-- A list with one more id, if the test holds.
pushed :
    (ids : List Bytes) (id x : Bytes) (test : Bool)
    → contains_id (if test then push_unique Bytes-discrete ids id else ids) x
      ≡ (contains_id ids x || (test && bytes_eq id x))
pushed ids id x true = any-same-push_unique Bytes-discrete ids id x
pushed ids id x false = ground arith

contains-expired_ids :
    (all events : List Event) (ids : List Bytes) (x : Bytes)
    → contains_id (expired_ids all ids events) x
      ≡ (contains_id ids x || any (calls_back all x) events)
unfolding expired_ids any
contains-expired_ids all [] ids x = ground arith
contains-expired_ids all (event ∷ events) ids x =
    contains-expired_ids all events _ x
    ∙ step (event_kind_eq event.kind invitation_expired)
        (invitation_expired_from_bytes event.payload)
  where
    step :
        (b : Bool) (parsed : Parsed InvitationExpired)
        → (contains_id
              (if not b then ids else elim parsed [
                | err _ ↦ ids
                | ok p ↦
                    if sender_signed_offer_exists all event p.invitation_id
                    then push_unique Bytes-discrete ids p.invitation_id
                    else ids
              ])
              x
            || any (calls_back all x) events)
          ≡ (contains_id ids x
              || ((b && elim parsed [
                | err _ ↦ false
                | ok p ↦
                    sender_signed_offer_exists all event p.invitation_id
                    && bytes_eq p.invitation_id x
              ])
                  || any (calls_back all x) events))
    step false parsed = refl
    step true (err _) = refl
    step true (ok p) =
        ground (
          arith,
          pushed ids p.invitation_id x (sender_signed_offer_exists all event p.invitation_id),
        )

contains-revoked_ids :
    (all events : List Event) (ids : List StarterId) (x : StarterId)
    → contains_id (revoked_ids (expired_ids all [] all) ids events) x
      ≡ (contains_id ids x || any (revokes all x) events)
unfolding revoked_ids any
contains-revoked_ids all [] ids x = ground arith
contains-revoked_ids all (event ∷ events) ids x =
    contains-revoked_ids all events _ x
    ∙ step (event_kind_eq event.kind invitation_accepted)
        (invitation_accepted_from_bytes event.payload)
  where
    expired : List Bytes
    expired = expired_ids all [] all

    step :
        (b : Bool) (parsed : Parsed InvitationAccepted)
        → (contains_id
              (if not b then ids else elim parsed [
                | err _ ↦ ids
                | ok p ↦
                    if contains_id expired p.invitation_id
                    then push_unique Bytes-discrete ids p.created_starter_id
                    else ids
              ])
              x
            || any (revokes all x) events)
          ≡ (contains_id ids x
              || ((b && elim parsed [
                | err _ ↦ false
                | ok p ↦ any (calls_back all p.invitation_id) all && bytes_eq p.created_starter_id x
              ])
                  || any (revokes all x) events))
    step false parsed = refl
    step true (err _) = refl
    step true (ok p) = ground (
      arith,
      pushed ids p.created_starter_id x (contains_id expired p.invitation_id),
      contains-expired_ids all all [] p.invitation_id,
    )

pub contains-revoked_created_starter_ids :
    (ledger : Ledger) (id : StarterId)
    → contains_id (revoked_created_starter_ids ledger) id
      ≡ any (revokes ledger.events id) ledger.events
unfolding revoked_created_starter_ids any
contains-revoked_created_starter_ids ledger id =
    contains-revoked_ids ledger.events ledger.events [] id
