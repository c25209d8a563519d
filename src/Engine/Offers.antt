-- ===== src/Engine/Offers.antt =====
-- An offer from its preparation to its place in the ledger's invitations.
use hivra_app.Engine.Incoming.{starter_kind_for_id, established_from, effects_for_incoming_accept}
use hivra_app.Payloads.Established.{kept_sender_root, relationship_established-roundtrip}
use hivra_app.Prelude.{
  ◌≡◌, refl, ap, ◌∙◌, Bool, true, false, ◌&&◌, none, some, List, [], ◌∷◌, ◌++◌, ok, arith, find,
  any, same_refl, ◌>>=◌,
}
use hivra_app.Primitives.{Bytes, Bytes-discrete, bytes_eq, IsArray, PubKey, StarterId, StarterKind}
use hivra_app.Events.{Event, invitation_sent, relationship_established}
use hivra_app.Payloads.{
  InvitationSent, invitation_sent_to_bytes, invitation_sent_from_bytes, InvitationAccepted,
  relationship_established_from_bytes, relationship_established_to_bytes,
}
use hivra_app.Payloads.RoundTrip.{invitation_sent-roundtrip, EstablishedFits}
use hivra_app.Ledger.{Ledger}
use hivra_app.Invitations.{InvitationRecord, outgoing, pending, direction_eq}
use hivra_app.Invitations.Records.{
  add_offer, offer_record, record_event, record_events, invitations_with_status,
}
use hivra_app.Invitations.View.{find_invitation, find_invitation_by_direction}
use hivra_app.Engine.{Engine, PreparedEvent, random_id, public_key, verify_event, append_event}
use hivra_app.Engine.Prepare.{prepare_invitation_sent, prepare_relationship_established}
use hivra_app.Engine.Signing.{SignsAs, with_key, Supported, prepare_event-versioned}

record_events-append_one :
    (owner : PubKey) (records : List InvitationRecord) (events : List Event) (e : Event)
    → record_events owner records (events ++ (e ∷ []))
      ≡ record_event owner (record_events owner records events) e
unfolding record_events
record_events-append_one owner records [] e = refl
record_events-append_one owner records (x ∷ events) e =
    record_events-append_one owner (record_event owner records x) events e

none_found :
    (p : InvitationRecord → Bool) (records : List InvitationRecord)
    → find p records ≡ none
    → any p records ≡ false
unfolding find any
none_found p [] h = refl
none_found p (r ∷ records) h = ground (arith, none_found p records)

-- Where no record has the id, the one at the end is found.
found_last :
    (p q : InvitationRecord → Bool) (records : List InvitationRecord) (r : InvitationRecord)
    → any p records ≡ false
    → (p r && q r) ≡ true
    → find (λ x. p x && q x) (records ++ (r ∷ [])) ≡ some r
unfolding find any
found_last p q [] r h k = ground arith
found_last p q (x ∷ records) r h k = ground (arith, found_last p q records r)

record_event_sent :
    (owner : PubKey) (records : List InvitationRecord) (e : Event) (p : InvitationSent)
    → e.kind ≡ invitation_sent
    → invitation_sent_from_bytes e.payload ≡ ok p
    → any (λ r. bytes_eq r.invitation_id p.invitation_id) records ≡ false
    → record_event owner records e ≡ records ++ (offer_record e p ∷ [])
unfolding record_event add_offer
record_event_sent owner records e p k parsed new = ground (arith, k, parsed, new)

offer_record_outgoing :
    (e : Event) (p : InvitationSent)
    → e.kind ≡ invitation_sent
    → (bytes_eq (offer_record e p).invitation_id p.invitation_id
        && direction_eq (offer_record e p).direction outgoing)
      ≡ true
unfolding offer_record
offer_record_outgoing e p k = ground (arith, k, same_refl Bytes-discrete p.invitation_id)

-- The ledger with one more event.
abbrev pub with_event : Ledger → Event → Ledger
with_event l e = record l { events = l.events ++ (e ∷ []) }

-- A well-formed offer under a new id is listed last, and found as the pending outgoing invitation.
sent-found :
    (l : Ledger) (e : Event) (p : InvitationSent)
    → e.kind ≡ invitation_sent
    → invitation_sent_from_bytes e.payload ≡ ok p
    → find_invitation l p.invitation_id ≡ none
    → find_invitation_by_direction (with_event l e) p.invitation_id outgoing
      ≡ some (offer_record e p)
unfolding find_invitation find_invitation_by_direction invitations_with_status
sent-found l e p k parsed new =
    let free =
      none_found (λ r. bytes_eq r.invitation_id p.invitation_id) (record_events l.owner [] l.events)
        new in
    rw
      (
        record_events-append_one l.owner [] l.events e,
        record_event_sent l.owner (record_events l.owner [] l.events) e p k parsed free,
      )
      (found_last (λ r. bytes_eq r.invitation_id p.invitation_id)
        (λ r. direction_eq r.direction outgoing) (record_events l.owner [] l.events)
        (offer_record e p) free (offer_record_outgoing e p k))

module _ (sha256 : Bytes → Bytes) {C K : Type 0} (engine : Engine C K) where
  -- An offer prepared by the engine of the ledger's owner, for arrays of 32 bytes and under an id
  -- that no invitation of the ledger has: the event is verified under the owner's key and, once it
  -- is the ledger's last event, the id is found as a pending outgoing invitation with the starter,
  -- recipient, time and sender's root that the offer was prepared with.
  pub prepare_invitation_sent-pending :
      (l : Ledger) (starter_id : StarterId) (to_pubkey : PubKey)
      → SignsAs engine l.owner
      → Supported sha256 engine l.owner
      → IsArray 32 (random_id engine)
      → IsArray 32 starter_id
      → IsArray 32 to_pubkey
      → IsArray 32 l.owner
      → find_invitation l (random_id engine) ≡ none
      → (p : PreparedEvent) × (r : InvitationRecord) × (prepare_invitation_sent sha256 engine
            starter_id to_pubkey
          ≡ ok p)
        × (p.recipient ≡ some to_pubkey)
        × (verify_event sha256 engine p.event l.owner ≡ ok tt)
        × (find_invitation_by_direction (with_event l p.event) (random_id engine) outgoing ≡ some r)
        × (r.status ≡ pending)
        × (r.starter_id ≡ starter_id)
        × (r.recipient_pubkey ≡ to_pubkey)
        × (r.sender_root_pubkey ≡ some l.owner)
        × (r.sent_at ≡ engine.time.now)
  unfolding prepare_invitation_sent public_key offer_record
  prepare_invitation_sent-pending l starter_id to_pubkey s v hi hs ht ho new =
      let payload : InvitationSent = record {
        invitation_id = random_id engine;
        starter_id = starter_id;
        to_pubkey = to_pubkey;
        sender_root_pubkey = some l.owner;
      } in
      let (p, prepared, recipient, is) =
        prepare_event-versioned sha256 engine l.owner invitation_sent
          (invitation_sent_to_bytes payload) (some to_pubkey) s v in
      let parsed =
        ap invitation_sent_from_bytes is.payload_kept
        ∙ invitation_sent-roundtrip payload
            (record { id_fits = hi; starter_fits = hs; to_fits = ht; root_fits = ho }) in
      (
        p,
        offer_record p.event payload,
        with_key sha256 engine l.owner _ s ∙ prepared,
        recipient,
        is.signature_verified,
        sent-found l p.event payload is.kind_kept parsed new,
        refl,
        refl,
        refl,
        refl,
        is.time_read,
      )

  -- When the peer's acceptance of a pending or answered outgoing offer arrives, and the offered
  -- starter has a recorded kind, the engine of the ledger's owner answers one event to append: a
  -- relationship event signed by the owner whose payload parses back to the offer's starter and
  -- invitation, the created starter of the acceptance, the accepter as the peer, and the roots,
  -- but for the own root where the acceptance carries no root.
  pub effects_for_incoming_accept-established :
      (l : Ledger) (accepter_pubkey : PubKey) (a : InvitationAccepted) (r : InvitationRecord)
      (kind : StarterKind)
      → SignsAs engine l.owner
      → Supported sha256 engine l.owner
      → find_invitation_by_direction l a.invitation_id outgoing ≡ some r
      → starter_kind_for_id l r.starter_id ≡ some kind
      → EstablishedFits (established_from r kind l.owner accepter_pubkey a)
      → (e : Event) × (effects_for_incoming_accept sha256 engine l accepter_pubkey a
          ≡ ok (append_event e ∷ []))
        × (e.kind ≡ relationship_established)
        × (relationship_established_from_bytes e.payload
            ≡ ok (record (established_from r kind l.owner accepter_pubkey a) {
              sender_root_pubkey = kept_sender_root a.accepter_root_pubkey (some l.owner);
            }))
        × (e.signer ≡ l.owner)
        × (verify_event sha256 engine e l.owner ≡ ok tt)
  unfolding effects_for_incoming_accept prepare_relationship_established public_key
  effects_for_incoming_accept-established l accepter_pubkey a r kind s v found known fits =
      let payload = established_from r kind l.owner accepter_pubkey a in
      let (p, prepared, recipient, is) =
        prepare_event-versioned sha256 engine l.owner relationship_established
          (relationship_established_to_bytes payload) none s v in
      (
        p.event,
        rw (found, known)
            (with_key sha256 engine l.owner _ s
              ∙ ap (λ m. m >>= λ q. ok (append_event q.event ∷ [])) prepared),
        is.kind_kept,
        ap relationship_established_from_bytes is.payload_kept
            ∙ relationship_established-roundtrip payload fits,
        is.signer_owner,
        is.signature_verified,
      )
