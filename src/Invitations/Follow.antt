-- ===== src/Invitations/Follow.antt =====
-- The list of `invitations_with_status` seen from one invitation: the events that concern it.
use hivra_app.Prelude.{
  ◌≡◌, refl, ap, Bool, true, false, Option, none, some, List, [], ◌∷◌, ◌++◌, ok, err, arith, any,
  find, if◌then◌else◌, Bool-cases, inl, inr, eq_of_same, subst, ◌∙◌,
}
use hivra_app.Primitives.{Bytes, Bytes-discrete, bytes_eq}
use hivra_app.Events.{
  Event, EventKind, invitation_sent, invitation_received, invitation_accepted, invitation_rejected,
  invitation_expired,
}
use hivra_app.Payloads.{InvitationSent, invitation_sent_from_bytes, Parsed}
use hivra_app.Ledger.{Ledger}
use hivra_app.Invitations.{InvitationStatus, InvitationRecord, terminal_status}
use hivra_app.Invitations.Records.{
  offer_record, apply_terminal, update_first, add_offer, end_invitation, record_event,
  record_events, invitations_with_status, record_kind,
}
use hivra_app.Invitations.View.{find_invitation}
use mathlib.Core.Option

-- The offer that an event makes.
abbrev pub offer_of : Event → EventKind → Option InvitationRecord
offer_of event invitation_sent = elim (invitation_sent_from_bytes event.payload) [
  | err _ ↦ none
  | ok payload ↦ some (offer_record event payload)
]
offer_of event invitation_received = elim (invitation_sent_from_bytes event.payload) [
  | err _ ↦ none
  | ok payload ↦ some (offer_record event payload)
]
offer_of event _ = none

abbrev pub has_id : Bytes → InvitationRecord → Bool
has_id id r = bytes_eq r.invitation_id id

-- What an offer makes of the one invitation: the first offer stays.
abbrev pub after_offer :
    Bytes → Option InvitationRecord → Option InvitationRecord → Option InvitationRecord
after_offer id none o = o
after_offer id (some r) (some x) = some x
after_offer id (some r) none = if has_id id r then some r else none

abbrev pub after_terminal :
    Bytes
    → Bytes
    → Event
    → Option (Bytes × InvitationStatus)
    → Option InvitationRecord
    → Option InvitationRecord
after_terminal owner id event none o = o
after_terminal owner id event (some (i, terminal)) o =
    if bytes_eq i id then Option.map (apply_terminal owner event terminal) o else o

-- One invitation, if it has been offered, after an event.
unfoldable pub follow : Bytes → Bytes → Option InvitationRecord → Event → Option InvitationRecord
follow owner id o event =
    after_terminal owner id event (terminal_status event.kind event.payload)
      (after_offer id (offer_of event event.kind) o)

unfoldable pub follow_all :
    Bytes → Bytes → Option InvitationRecord → List Event → Option InvitationRecord
follow_all owner id o [] = o
follow_all owner id o (event ∷ events) = follow_all owner id (follow owner id o event) events

bytes_eq-left : (a b c : Bytes) → bytes_eq a b ≡ true → bytes_eq a c ≡ bytes_eq b c
bytes_eq-left a b c h = let e : a ≡ b = eq_of_same Bytes-discrete a b h in ap (λ x. bytes_eq x c) e

find-append_one :
    (p : InvitationRecord → Bool) (rs : List InvitationRecord) (r : InvitationRecord)
    → find p (rs ++ (r ∷ []))
      ≡ elim (find p rs) [ some x ↦ some x | none ↦ if p r then some r else none ]
unfolding find
find-append_one p [] r = ground arith
find-append_one p (x ∷ rs) r = ground (arith, find-append_one p rs r)

any_of_find :
    (p : InvitationRecord → Bool) (rs : List InvitationRecord)
    → any p rs ≡ elim (find p rs) [ some _ ↦ true | none ↦ false ]
unfolding find any
any_of_find p [] = refl
any_of_find p (x ∷ rs) = ground (arith, any_of_find p rs)

module _ (i id : Bytes) (f : InvitationRecord → InvitationRecord) (p : InvitationRecord → Bool)
    (keeps : (r : InvitationRecord) → p (f r) ≡ p r)
    (hits : (r : InvitationRecord) → bytes_eq r.invitation_id i ≡ true → p r ≡ bytes_eq i id)
    (misses : (r : InvitationRecord)
      → bytes_eq r.invitation_id i ≡ false
      → bytes_eq i id ≡ true
      → p r ≡ false) where
  find-update_first :
      (rs : List InvitationRecord)
      → find p (update_first i f rs)
        ≡ (if bytes_eq i id then Option.map f (find p rs) else find p rs)
  unfolding find update_first
  find-update_first [] = ground arith
  find-update_first (r ∷ rs) = elim (Bool-cases (bytes_eq r.invitation_id i)) [
    | inl hit ↦
        rw (hit, keeps r, hits r hit)
          (elim (Bool-cases (bytes_eq i id)) [ inl one ↦ rw one refl | inr other ↦ rw other refl ])
    | inr miss ↦
        rw (miss, find-update_first rs)
          (elim (Bool-cases (bytes_eq i id)) [
            | inl one ↦ rw (one, misses r miss one) refl
            | inr other ↦ rw other refl
          ])
  ]

pub apply_terminal-keeps_id :
    (owner : Bytes) (event : Event) (terminal : InvitationStatus) (r : InvitationRecord)
    → (apply_terminal owner event terminal r).invitation_id ≡ r.invitation_id
unfolding apply_terminal
apply_terminal-keeps_id owner event terminal r = ground arith

end-find :
    (owner id : Bytes) (rs : List InvitationRecord) (event : Event)
    (ended : Option (Bytes × InvitationStatus))
    → find (has_id id) (elim ended [
      | none ↦ rs
      | some (i, terminal) ↦ update_first i (apply_terminal owner event terminal) rs
    ])
      ≡ after_terminal owner id event ended (find (has_id id) rs)
end-find owner id rs event none = refl
end-find owner id rs event (some (i, terminal)) =
    find-update_first i id (apply_terminal owner event terminal) (has_id id)
      (λ r. ap (λ x. bytes_eq x id) (apply_terminal-keeps_id owner event terminal r))
      (λ r. bytes_eq-left r.invitation_id i id)
      (λ r h k.
        subst (λ x. bytes_eq r.invitation_id x ≡ false) (eq_of_same Bytes-discrete i id k) h)
      rs

push_offer-find :
    (id : Bytes) (rs : List InvitationRecord) (r : InvitationRecord)
    → find (has_id id) (if any (has_id r.invitation_id) rs then rs else rs ++ (r ∷ []))
      ≡ after_offer id (some r) (find (has_id id) rs)
push_offer-find id rs r = elim (Bool-cases (bytes_eq r.invitation_id id)) [
  | inl mine ↦ ground (
    arith,
    find-append_one (has_id id) rs r,
    ap (λ x. any (has_id x) rs) (eq_of_same Bytes-discrete r.invitation_id id mine),
    any_of_find (has_id id) rs,
  )
  | inr other ↦ ground (arith, find-append_one (has_id id) rs r)
]

offer-find :
    (id : Bytes) (rs : List InvitationRecord) (event : Event) (parsed : Parsed InvitationSent)
    → find (has_id id) (elim parsed [
      | err _ ↦ rs
      | ok payload ↦
          if any (λ r. bytes_eq r.invitation_id payload.invitation_id) rs
          then rs
          else rs ++ (offer_record event payload ∷ [])
    ])
      ≡ after_offer id
          (elim parsed [ err _ ↦ none | ok payload ↦ some (offer_record event payload) ])
          (find (has_id id) rs)
unfolding offer_record
offer-find id rs event (err _) = refl
offer-find id rs event (ok payload) = push_offer-find id rs (offer_record event payload)

kind-find :
    (owner id : Bytes) (rs : List InvitationRecord) (event : Event) (kind : EventKind)
    → find (has_id id) (record_kind owner rs event kind)
      ≡ after_terminal owner id event
          (terminal_status kind event.payload)
          (after_offer id (offer_of event kind) (find (has_id id) rs))
unfolding add_offer end_invitation
kind-find owner id rs event invitation_sent = offer-find id rs event _
kind-find owner id rs event invitation_received = offer-find id rs event _
kind-find owner id rs event invitation_accepted = end-find owner id rs event _
kind-find owner id rs event invitation_rejected = end-find owner id rs event _
kind-find owner id rs event invitation_expired = end-find owner id rs event _
kind-find owner id rs event _ = refl

record_events-find :
    (owner id : Bytes) (rs : List InvitationRecord) (events : List Event)
    → find (has_id id) (record_events owner rs events)
      ≡ follow_all owner id (find (has_id id) rs) events
unfolding record_events follow_all record_event follow
record_events-find owner id rs [] = refl
record_events-find owner id rs (event ∷ events) =
    record_events-find owner id (record_event owner rs event) events
    ∙ ap (λ o. follow_all owner id o events) (kind-find owner id rs event event.kind)

-- The record found for an id is the first offer with that id, changed by the terminal events with
-- that id that come after it, each once and in the order of the ledger; terminal events before
-- the offer, later offers and events of other invitations change nothing.
pub find_invitation-follow :
    (ledger : Ledger) (id : Bytes)
    → find_invitation ledger id ≡ follow_all ledger.owner id none ledger.events
unfolding find_invitation invitations_with_status find
find_invitation-follow ledger id = record_events-find ledger.owner id [] ledger.events
