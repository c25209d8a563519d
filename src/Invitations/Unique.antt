-- ===== src/Invitations/Unique.antt =====
-- Each invitation is listed once.
use hivra_app.Prelude.{
  ◌≡◌, refl, ap, false, Option, none, some, List, [], ◌∷◌, ◌++◌, arith, if◌then◌else◌, map, any,
  All, Pairwise, Pairwise-append_one, Bool-cases, inl, inr, ok, err,
}
use hivra_app.Primitives.{Bytes, bytes_eq}
use hivra_app.Events.{
  Event, EventKind, invitation_sent, invitation_received, invitation_accepted, invitation_rejected,
  invitation_expired,
}
use hivra_app.Payloads.{Parsed, InvitationSent}
use hivra_app.Ledger.{Ledger}
use hivra_app.Invitations.{InvitationStatus, InvitationRecord}
use hivra_app.Invitations.Records.{
  apply_terminal, offer_record, update_first, add_offer, end_invitation, record_kind, record_event,
  record_events, invitations_with_status,
}
use hivra_app.Invitations.Follow.{apply_terminal-keeps_id}

abbrev pub ids : List InvitationRecord → List Bytes
ids records = map (λ r. r.invitation_id) records

abbrev pub Distinct : List Bytes → Type 0
Distinct = Pairwise (λ a b. bytes_eq a b ≡ false)

ids-update_first :
    (id : Bytes) (f : InvitationRecord → InvitationRecord) (rs : List InvitationRecord)
    → ((r : InvitationRecord) → (f r).invitation_id ≡ r.invitation_id)
    → ids (update_first id f rs) ≡ ids rs
unfolding update_first
ids-update_first id f [] keeps = refl
ids-update_first id f (r ∷ rs) keeps = elim (Bool-cases (bytes_eq r.invitation_id id)) [
  | inl hit ↦ rw hit (ap (λ i. i ∷ ids rs) (keeps r))
  | inr miss ↦ rw miss (ap (◌∷◌ r.invitation_id) (ids-update_first id f rs keeps))
]

none_of_any :
    (id : Bytes) (rs : List InvitationRecord)
    → any (λ r. bytes_eq r.invitation_id id) rs ≡ false
    → All (λ i. bytes_eq i id ≡ false) (ids rs)
unfolding any
none_of_any id [] h = tt
none_of_any id (r ∷ rs) h = (ground arith, none_of_any id rs (ground arith))

ids-append_one :
    (rs : List InvitationRecord) (r : InvitationRecord)
    → ids (rs ++ (r ∷ [])) ≡ ids rs ++ (r.invitation_id ∷ [])
ids-append_one [] r = refl
ids-append_one (x ∷ rs) r = ap (◌∷◌ x.invitation_id) (ids-append_one rs r)

push-Distinct :
    (rs : List InvitationRecord) (r : InvitationRecord)
    → Distinct (ids rs)
    → Distinct (
        ids (if any (λ x. bytes_eq x.invitation_id r.invitation_id) rs then rs else rs ++ (r ∷ [])))
push-Distinct rs r h = elim (Bool-cases (any (λ x. bytes_eq x.invitation_id r.invitation_id) rs)) [
  | inl listed ↦ rw listed h
  | inr new ↦
      rw (new, ids-append_one rs r)
        (Pairwise-append_one (λ a b. bytes_eq a b ≡ false) (ids rs) r.invitation_id h
          (none_of_any r.invitation_id rs new))
]

offer-Distinct :
    (rs : List InvitationRecord) (event : Event) (parsed : Parsed InvitationSent)
    → Distinct (ids rs)
    → Distinct (
        ids (elim parsed [
          | err _ ↦ rs
          | ok payload ↦
              if any (λ r. bytes_eq r.invitation_id payload.invitation_id) rs
              then rs
              else rs ++ (offer_record event payload ∷ [])
        ]))
unfolding offer_record
offer-Distinct rs event (err _) h = h
offer-Distinct rs event (ok payload) h = push-Distinct rs (offer_record event payload) h

end-Distinct :
    (owner : Bytes) (rs : List InvitationRecord) (event : Event)
    (ended : Option (Bytes × InvitationStatus))
    → Distinct (ids rs)
    → Distinct (
        ids (elim ended [
          | none ↦ rs
          | some (i, terminal) ↦ update_first i (apply_terminal owner event terminal) rs
        ]))
end-Distinct owner rs event none h = h
end-Distinct owner rs event (some (i, terminal)) h =
    rw
      (ids-update_first i (apply_terminal owner event terminal) rs
        (apply_terminal-keeps_id owner event terminal))
      h

kind-Distinct :
    (owner : Bytes) (rs : List InvitationRecord) (event : Event) (kind : EventKind)
    → Distinct (ids rs)
    → Distinct (ids (record_kind owner rs event kind))
unfolding add_offer end_invitation
kind-Distinct owner rs event invitation_sent h = offer-Distinct rs event _ h
kind-Distinct owner rs event invitation_received h = offer-Distinct rs event _ h
kind-Distinct owner rs event invitation_accepted h = end-Distinct owner rs event _ h
kind-Distinct owner rs event invitation_rejected h = end-Distinct owner rs event _ h
kind-Distinct owner rs event invitation_expired h = end-Distinct owner rs event _ h
kind-Distinct owner rs event _ h = h

events-Distinct :
    (owner : Bytes) (rs : List InvitationRecord) (events : List Event)
    → Distinct (ids rs)
    → Distinct (ids (record_events owner rs events))
unfolding record_events record_event
events-Distinct owner rs [] h = h
events-Distinct owner rs (event ∷ events) h =
    events-Distinct owner (record_event owner rs event) events
      (kind-Distinct owner rs event event.kind h)

-- No two records of `invitations_with_status` have the same invitation id.
pub invitations_with_status-Distinct :
    (ledger : Ledger) → Distinct (ids (invitations_with_status ledger))
unfolding invitations_with_status
invitations_with_status-Distinct ledger = events-Distinct ledger.owner [] ledger.events tt
