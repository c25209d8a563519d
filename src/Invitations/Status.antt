-- ===== src/Invitations/Status.antt =====
-- How the status of an invitation moves while the ledger grows.
use hivra_app.Prelude.{
  ◌≡◌, refl, ◌∙◌, sym, subst, Bool, true, false, Option, none, some, List, [], ◌∷◌, ◌++◌, arith,
  Bool-cases, inl, inr, ◌≢◌, ok, err,
}
use hivra_app.Primitives.{Bytes, bytes_eq}
use hivra_app.Events.{
  Event, EventKind, invitation_sent, invitation_received, invitation_accepted, invitation_rejected,
  invitation_expired,
}
use hivra_app.Payloads.{Parsed, InvitationSent}
use hivra_app.Ledger.{Ledger}
use hivra_app.Ledger.Reachable.{Reach}
use hivra_app.Ledger.AppendOnly.{Reach-Extends}
use hivra_app.Invitations.{
  InvitationStatus, pending, accepted, rejected, expired, InvitationDirection, outgoing, incoming,
  InvitationRecord, terminal_status,
}
use hivra_app.Invitations.Records.{
  apply_terminal, offer_record, is_local_terminal, valid_expiry_signer, signer_of_direction,
}
use hivra_app.Invitations.View.{find_invitation}
use hivra_app.Invitations.Follow.{
  follow, follow_all, after_offer, after_terminal, offer_of, find_invitation-follow,
}

-- Nothing ends the invitation any more.
abbrev pub is_final : InvitationDirection → InvitationStatus → Bool
is_final direction pending = false
is_final outgoing (accepted _ _ _) = true
is_final incoming (accepted _ _ _) = false
is_final direction (rejected _) = true
is_final direction expired = true

-- The later record has the earlier one's offer, and its status if that is final.
abbrev pub Keeps : InvitationRecord → InvitationRecord → Type 0
Keeps r r' =
    (r'.invitation_id ≡ r.invitation_id)
    × (r'.starter_id ≡ r.starter_id)
    × (r'.direction ≡ r.direction)
    × (r'.offer_signer ≡ r.offer_signer)
    × (is_final r.direction r.status ≡ true → r'.status ≡ r.status)

apply_terminal-Keeps :
    (owner : Bytes) (event : Event) (terminal : InvitationStatus) (r : InvitationRecord)
    → Keeps r (apply_terminal owner event terminal r)
unfolding apply_terminal is_local_terminal valid_expiry_signer
apply_terminal-Keeps owner event terminal r = ground arith

-- What a found invitation becomes.
abbrev Becomes : InvitationRecord → Option InvitationRecord → Type 0
Becomes r o = (r' : InvitationRecord) × (o ≡ some r') × Keeps r r'

Becomes-refl : (r : InvitationRecord) → Becomes r (some r)
Becomes-refl r = (r, refl, (refl, refl, refl, refl, λ _. refl))

terminal-Becomes :
    (owner id : Bytes) (r : InvitationRecord) (event : Event)
    (ended : Option (Bytes × InvitationStatus))
    → Becomes r (after_terminal owner id event ended (some r))
terminal-Becomes owner id r event none = Becomes-refl r
terminal-Becomes owner id r event (some (i, terminal)) = elim (Bool-cases (bytes_eq i id)) [
  | inl mine ↦
      rw mine
        (apply_terminal owner event terminal r, refl, apply_terminal-Keeps owner event terminal r)
  | inr other ↦ rw other (Becomes-refl r)
]

follow-Becomes :
    (owner id : Bytes) (r : InvitationRecord) (event : Event)
    → Becomes r (follow owner id (some r) event)
unfolding follow
follow-Becomes owner id r event =
    elim (offer_of event event.kind)
      as (λ offer. Becomes r (
        after_terminal owner id event (terminal_status event.kind event.payload)
          (after_offer id offer (some r)))) [
            | none ↦ terminal-Becomes owner id r event (terminal_status event.kind event.payload)
            | some _ ↦ terminal-Becomes owner id r event (terminal_status event.kind event.payload)
          ]

Keeps-trans : (a b c : InvitationRecord) → Keeps a b → Keeps b c → Keeps a c
Keeps-trans a b c (i, s, d, o, f) (i', s', d', o', f') =
    (i' ∙ i, s' ∙ s, d' ∙ d, o' ∙ o, λ final. f' (rw (d, f final) final) ∙ f final)

follow_all-Becomes :
    (owner id : Bytes) (r : InvitationRecord) (events : List Event)
    → Becomes r (follow_all owner id (some r) events)
unfolding follow_all
follow_all-Becomes owner id r [] = Becomes-refl r
follow_all-Becomes owner id r (event ∷ events) =
    let (r', found, kept) = follow-Becomes owner id r event in
    let (r'', found', kept') = follow_all-Becomes owner id r' events in
    (r'', rw found found', Keeps-trans r r' r'' kept kept')

follow_all-append :
    (owner id : Bytes) (o : Option InvitationRecord) (front back : List Event)
    → follow_all owner id o (front ++ back) ≡ follow_all owner id (follow_all owner id o front) back
unfolding follow_all
follow_all-append owner id o [] back = refl
follow_all-append owner id o (event ∷ front) back =
    follow_all-append owner id (follow owner id o event) front back

-- In every ledger reached from `l`, an invitation that `l` has is found with the same starter,
-- direction and offer signer; its status is the same too if it was final: rejected, expired, or
-- accepted on the side of the sender.
pub find_invitation-final :
    (sha256 : Bytes → Bytes) (l m : Ledger) (id : Bytes) (r : InvitationRecord)
    → Reach sha256 l m
    → find_invitation l id ≡ some r
    → (r' : InvitationRecord) × (find_invitation m id ≡ some r') × Keeps r r'
find_invitation-final sha256 l m id r reach found =
    let (rest, owned, grown) = Reach-Extends sha256 reach in
    let now : follow_all l.owner id none l.events ≡ some r =
      sym (find_invitation-follow l id) ∙ found in
    let (r', later, kept) = follow_all-Becomes l.owner id r rest in
    (
      r',
      find_invitation-follow m id
          ∙ rw (owned, grown, follow_all-append l.owner id none l.events rest, now) later,
      kept,
    )

-- What holds of an invitation as `invitations_with_status` lists it.
pub record IsRecorded (owner : Bytes) (r : InvitationRecord) : Type 0 where
  pub waiting : r.status ≡ pending → (r.responded_signer ≡ none) × (r.responded_at ≡ none)
  pub answered : r.responded_signer ≡ none → r.status ≡ pending
  pub revoked :
      r.status ≡ expired
      → r.responded_signer ≡ some (signer_of_direction r.direction owner r.offer_signer)
  pub settled : r.has_local_terminal ≡ true → r.status ≢ pending

terminal-IsRecorded :
    (owner : Bytes) (event : Event) (terminal : InvitationStatus) (r : InvitationRecord)
    → terminal ≢ pending
    → IsRecorded owner r
    → IsRecorded owner (apply_terminal owner event terminal r)
unfolding apply_terminal is_local_terminal valid_expiry_signer
terminal-IsRecorded owner event terminal r ends h = record {
  waiting = ground (arith, h.waiting, h.answered, h.revoked, h.settled);
  answered = ground (arith, h.waiting, h.answered, h.revoked, h.settled);
  revoked = ground (arith, h.waiting, h.answered, h.revoked, h.settled);
  settled = ground (arith, h.waiting, h.answered, h.revoked, h.settled);
}

abbrev AllRecorded : Bytes → Option InvitationRecord → Type 0
AllRecorded owner none = Unit
AllRecorded owner (some r) = IsRecorded owner r

terminal_status-ends :
    (kind : EventKind) (bytes : Bytes) (i : Bytes) (terminal : InvitationStatus)
    → terminal_status kind bytes ≡ some (i, terminal)
    → terminal ≢ pending
terminal_status-ends invitation_accepted bytes i terminal e = ground arith
terminal_status-ends invitation_rejected bytes i terminal e = ground arith
terminal_status-ends invitation_expired bytes i terminal e = ground arith
terminal_status-ends _ bytes i terminal e = cc

after_terminal-recorded :
    (owner id : Bytes) (event : Event) (ended : Option (Bytes × InvitationStatus))
    (o : Option InvitationRecord)
    → ((i : Bytes) (terminal : InvitationStatus) → ended ≡ some (i, terminal) → terminal ≢ pending)
    → AllRecorded owner o
    → AllRecorded owner (after_terminal owner id event ended o)
after_terminal-recorded owner id event none o ends h = h
after_terminal-recorded owner id event (some (i, terminal)) none ends h =
    elim (Bool-cases (bytes_eq i id)) [ inl mine ↦ rw mine tt | inr other ↦ rw other tt ]
after_terminal-recorded owner id event (some (i, terminal)) (some r) ends h =
    elim (Bool-cases (bytes_eq i id)) [
      | inl mine ↦ rw mine (terminal-IsRecorded owner event terminal r (ends i terminal refl) h)
      | inr other ↦ rw other h
    ]

offer_record-IsRecorded :
    (owner : Bytes) (event : Event) (payload : InvitationSent)
    → IsRecorded owner (offer_record event payload)
unfolding offer_record
offer_record-IsRecorded owner event payload = record {
  waiting = λ _. (refl, refl);
  answered = λ _. refl;
  revoked = λ e. cc;
  settled = λ e. cc;
}

parsed-recorded :
    (owner : Bytes) (event : Event) (parsed : Parsed InvitationSent)
    → AllRecorded owner
        (elim parsed [ err _ ↦ none | ok payload ↦ some (offer_record event payload) ])
parsed-recorded owner event (err _) = tt
parsed-recorded owner event (ok payload) = offer_record-IsRecorded owner event payload

offer_of-recorded :
    (owner : Bytes) (event : Event) (kind : EventKind) → AllRecorded owner (offer_of event kind)
offer_of-recorded owner event invitation_sent = parsed-recorded owner event _
offer_of-recorded owner event invitation_received = parsed-recorded owner event _
offer_of-recorded owner event _ = tt

after_offer-recorded :
    (owner id : Bytes) (offer o : Option InvitationRecord)
    → AllRecorded owner offer
    → AllRecorded owner o
    → AllRecorded owner (after_offer id offer o)
after_offer-recorded owner id none o h k = k
after_offer-recorded owner id (some r) (some x) h k = k
after_offer-recorded owner id (some r) none h k = elim (Bool-cases (bytes_eq r.invitation_id id)) [
  | inl mine ↦ rw mine h
  | inr other ↦ rw other tt
]

follow_all-recorded :
    (owner id : Bytes) (o : Option InvitationRecord) (events : List Event)
    → AllRecorded owner o
    → AllRecorded owner (follow_all owner id o events)
unfolding follow_all follow
follow_all-recorded owner id o [] h = h
follow_all-recorded owner id o (event ∷ events) h =
    follow_all-recorded owner id (follow owner id o event) events (
      after_terminal-recorded owner id event (terminal_status event.kind event.payload)
        (after_offer id (offer_of event event.kind) o)
        (terminal_status-ends event.kind event.payload)
        (after_offer-recorded owner id (offer_of event event.kind) o
          (offer_of-recorded owner event event.kind) h))

-- A listed invitation is pending exactly while nobody has responded; an expired one was expired
-- by its own sender (the owner for an outgoing one, the signer of the offer for an incoming one);
-- and one that the owner has ended on this side is not pending.
pub find_invitation-IsRecorded :
    (ledger : Ledger) (id : Bytes) (r : InvitationRecord)
    → find_invitation ledger id ≡ some r
    → IsRecorded ledger.owner r
find_invitation-IsRecorded ledger id r found =
    subst (AllRecorded ledger.owner) (sym (find_invitation-follow ledger id) ∙ found)
      (follow_all-recorded ledger.owner id none ledger.events tt)
