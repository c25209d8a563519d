-- ===== src/Slots/Offered.antt =====
-- Which starters are on offer, read from the events by themselves: the pending pairs that the loop
-- of `locked_starter_ids` (slot.rs) keeps are those of the capsule's unanswered offers.
use hivra_app.Prelude.{
  ◌≡◌, refl, ap, ◌∙◌, Bool, false, not, ◌&&◌, ◌||◌, Option, none, some, List, [], ◌∷◌, ◌++◌, ok,
  err, arith, if◌then◌else◌, any, any-append, retain, to_option, Bool-cases, inl, inr,
}
use mathlib.Core.Option
use hivra_app.Primitives.{Bytes, bytes_eq, PubKey, StarterId}
use hivra_app.Events.{
  Event, EventKind, invitation_sent, invitation_accepted, invitation_rejected, invitation_expired,
}
use hivra_app.Payloads.{
  Parsed, InvitationSent, invitation_sent_from_bytes, invitation_accepted_from_bytes,
  invitation_rejected_from_bytes, invitation_expired_from_bytes,
}
use hivra_app.Slots.{Pending, clear_pending, pending_step, pending_after}

-- The invitation that an acceptance, a rejection or an expiry names, whoever signed it.
abbrev pub answered_id : Event → EventKind → Option Bytes
answered_id event invitation_accepted =
    Option.map (λ p. p.invitation_id) (to_option (invitation_accepted_from_bytes event.payload))
answered_id event invitation_rejected =
    Option.map (λ p. p.invitation_id) (to_option (invitation_rejected_from_bytes event.payload))
answered_id event invitation_expired =
    Option.map (λ p. p.invitation_id) (to_option (invitation_expired_from_bytes event.payload))
answered_id event _ = none

-- The offer that the owner has signed.
abbrev pub own_offer : PubKey → Event → EventKind → Option InvitationSent
own_offer owner event invitation_sent =
    if bytes_eq event.signer owner
    then to_option (invitation_sent_from_bytes event.payload)
    else none
own_offer owner event _ = none

abbrev pub is_named : Bytes → Option Bytes → Bool
is_named id none = false
is_named id (some other) = bytes_eq id other

abbrev pub is_answered : Bytes → List Event → Bool
is_answered id events = any (λ event. is_named id (answered_id event event.kind)) events

-- Whether the offer is one of the starter that none of the events answers.
abbrev pub stays_offered : StarterId → Option InvitationSent → List Event → Bool
stays_offered id none later = false
stays_offered id (some p) later =
    bytes_eq p.starter_id id && not (is_answered p.invitation_id later)

-- Whether the owner offers the starter by an invitation that no later event answers.
unfoldable pub is_offered : PubKey → StarterId → List Event → Bool
is_offered owner id [] = false
is_offered owner id (event ∷ later) =
    stays_offered id (own_offer owner event event.kind) later || is_offered owner id later

module _ {A : Type 0} where
  any-ext : (p q : A → Bool) (xs : List A) → ((x : A) → p x ≡ q x) → any p xs ≡ any q xs
  unfolding any
  any-ext p q [] h = refl
  any-ext p q (x ∷ xs) h = rw (h x, any-ext p q xs h) refl

  any-retain :
      (p keep : A → Bool) (xs : List A) → any p (retain keep xs) ≡ any (λ x. keep x && p x) xs
  unfolding any retain
  any-retain p keep [] = refl
  any-retain p keep (x ∷ xs) = elim (Bool-cases (keep x)) [
    | inl on ↦ rw on (ap (◌||◌ (p x)) (any-retain p keep xs))
    | inr off ↦ rw off (any-retain p keep xs)
  ]

module _ (id : StarterId) (later : List Event) where
  -- A pending pair offers the starter, and no later event answers it.
  abbrev waits : Bytes × StarterId → Bool
  waits p = bytes_eq p.1 id && not (is_answered p.0 later)

  -- What a step leaves pending, given the offer and the answer that the event is.
  abbrev Stepped : Pending → Pending → Option InvitationSent → Option Bytes → Type 0
  Stepped before after offer answer = any waits after ≡ (
      any (λ p. bytes_eq p.1 id && not (is_named p.0 answer || is_answered p.0 later)) before
      || stays_offered id offer later)

  nothing-Stepped : (pending : Pending) → Stepped pending pending none none
  nothing-Stepped pending = ground arith

  offer-Stepped :
      (pending : Pending) (parsed : Parsed InvitationSent)
      → Stepped pending
          (elim parsed [
            | err _ ↦ pending
            | ok p ↦ pending ++ ((p.invitation_id, p.starter_id) ∷ [])
          ])
          (to_option parsed)
          none
  offer-Stepped pending (err _) = nothing-Stepped pending
  offer-Stepped pending (ok p) =
      any-append waits pending ((p.invitation_id, p.starter_id) ∷ []) ∙ (unfold any in ground arith)

  answer-Stepped :
      (pending : Pending) (answered : Bytes)
      → Stepped pending (clear_pending pending answered) none (some answered)
  unfolding clear_pending
  answer-Stepped pending answered =
      any-retain waits (λ p. not (bytes_eq p.0 answered)) pending
      ∙ (any-ext (λ p. not (bytes_eq p.0 answered) && waits p)
            (λ p. bytes_eq p.1 id && not (bytes_eq p.0 answered || is_answered p.0 later)) pending
            (λ p. ground arith)
          ∙ ground arith)

  answered-Stepped :
      {P : Type 0} (name : P → Bytes) (pending : Pending) (parsed : Parsed P)
      → Stepped pending
          (elim parsed [ err _ ↦ pending | ok p ↦ clear_pending pending (name p) ])
          none
          (Option.map name (to_option parsed))
  answered-Stepped name pending (err _) = nothing-Stepped pending
  answered-Stepped name pending (ok p) = answer-Stepped pending (name p)

  step-Stepped :
      (owner : PubKey) (pending : Pending) (event : Event) (kind : EventKind)
      → Stepped pending
          (pending_step owner pending event kind)
          (own_offer owner event kind)
          (answered_id event kind)
  step-Stepped owner pending event invitation_sent =
      elim (Bool-cases (bytes_eq event.signer owner)) [
        | inl own ↦ rw own (offer-Stepped pending (invitation_sent_from_bytes event.payload))
        | inr foreign ↦ rw foreign (nothing-Stepped pending)
      ]
  step-Stepped owner pending event invitation_accepted =
      answered-Stepped (λ p. p.invitation_id) pending (invitation_accepted_from_bytes event.payload)
  step-Stepped owner pending event invitation_rejected =
      answered-Stepped (λ p. p.invitation_id) pending (invitation_rejected_from_bytes event.payload)
  step-Stepped owner pending event invitation_expired =
      answered-Stepped (λ p. p.invitation_id) pending (invitation_expired_from_bytes event.payload)
  step-Stepped owner pending event _ = nothing-Stepped pending

pub pending_after-offers :
    (owner : PubKey) (id : StarterId) (pending : Pending) (events : List Event)
    → any (λ p. bytes_eq p.1 id) (pending_after owner pending events) ≡ (
        any (λ p. bytes_eq p.1 id && not (is_answered p.0 events)) pending
        || is_offered owner id events)
unfolding pending_after is_offered any
pending_after-offers owner id pending [] = ground (
  arith,
  any-ext (λ p. bytes_eq p.1 id) (λ p. bytes_eq p.1 id && not (is_answered p.0 [])) pending
      (λ p. ground arith),
)
pending_after-offers owner id pending (event ∷ events) = ground (
  arith,
  pending_after-offers owner id (pending_step owner pending event event.kind) events,
  step-Stepped id events owner pending event event.kind,
)
