-- ===== src/Deliveries/Unanswered.antt =====
-- Which offers of the capsule are delivered again.
use hivra_app.Prelude.{
  Bool, true, false, not, ◌≡◌, refl, sym, ap, ◌∙◌, ◌&&◌, ◌||◌, Option, none, some, List, [], ◌∷◌,
  arith, if◌then◌else◌, map, any, any-sort_by, All, Bool-cases, inl, inr, eq_of_same, retain, ok,
  err,
}
use hivra_app.Primitives.{Bytes, Bytes-discrete, bytes_eq, PubKey}
use hivra_app.Events.{
  Event, EventKind, capsule_created, invitation_sent, invitation_received, invitation_accepted,
  invitation_rejected, invitation_expired, relationship_established, relationship_broken,
  starter_created, starter_burned,
}
use hivra_app.Payloads.{InvitationSent, Parsed, invitation_sent_from_bytes}
use hivra_app.Pairs.Capsules.{Capsule}
use hivra_app.Deliveries.{resolves, invitation_id_from_terminal_payload}
use hivra_app.Deliveries.Pending.{
  Offers, remove_key, insert_key, offer_delivery, offer_step, offer_loop, offer_le,
  pending_outgoing_invitation_deliveries_in_runtime,
}

abbrev pub names : Bytes → Option Bytes → Bool
names id none = false
names id (some other) = bytes_eq other id

-- The id of the offer that the event is, if the capsule has signed it.
abbrev pub own_offer : PubKey → Event → EventKind → Option Bytes
own_offer root event invitation_sent =
    if bytes_eq event.signer root
    then elim (invitation_sent_from_bytes event.payload) [
      | err _ ↦ none
      | ok p ↦ some p.invitation_id
    ]
    else none
own_offer root event _ = none

-- Whether the offer waits for an answer after the events, given whether it waited before them.
unfoldable waits : PubKey → Bytes → Bool → List Event → Bool
waits root id waiting [] = waiting
waits root id waiting (event ∷ events) =
    waits root id
      (if names id (own_offer root event event.kind)
        then true
        else if names id (invitation_id_from_terminal_payload event.kind event.payload)
        then false
        else waiting)
      events

abbrev has_offer : Bytes → Offers → Bool
has_offer id pending = any (λ e. bytes_eq e.1.invitation_id id) pending

-- Each offer stands under its own id.
abbrev IsKeyed : Offers → Type 0
IsKeyed = All (λ e. e.0 ≡ e.1.invitation_id)

has_offer-remove_key :
    (id key : Bytes) (pending : Offers)
    → IsKeyed pending
    → has_offer id (remove_key bytes_eq key pending)
      ≡ (not (bytes_eq key id) && has_offer id pending)
unfolding any retain
has_offer-remove_key id key [] h = ground arith
has_offer-remove_key id key ((k, d) ∷ pending) (now, later) = elim (Bool-cases (bytes_eq k key)) [
  | inl gone ↦ rw gone (
      ground (
        arith,
        has_offer-remove_key id key pending later,
        sym now,
        eq_of_same Bytes-discrete k key gone,
      ))
  | inr kept ↦ rw kept (ground (arith, has_offer-remove_key id key pending later, sym now))
]

IsKeyed-remove_key :
    (key : Bytes) (pending : Offers) → IsKeyed pending → IsKeyed (remove_key bytes_eq key pending)
unfolding retain
IsKeyed-remove_key key [] h = tt
IsKeyed-remove_key key ((k, d) ∷ pending) (now, later) = elim (Bool-cases (bytes_eq k key)) [
  | inl gone ↦ rw gone (IsKeyed-remove_key key pending later)
  | inr kept ↦ rw kept (now, IsKeyed-remove_key key pending later)
]

-- Both facts of a step: which offers there are after it, and under which keys.
abbrev Stepped : PubKey → Event → Offers → EventKind → Type 0
Stepped root event pending kind =
    IsKeyed (offer_step root event pending kind)
    × ((id : Bytes)
        → has_offer id (offer_step root event pending kind) ≡ (
            if names id (own_offer root event kind)
            then true
            else if names id (invitation_id_from_terminal_payload kind event.payload)
            then false
            else has_offer id pending))

put-Stepped :
    (event : Event) (pending : Offers) (parsed : Parsed InvitationSent)
    → IsKeyed pending
    → let after : Offers = elim parsed [
      | err _ ↦ pending
      | ok p ↦ insert_key bytes_eq p.invitation_id (offer_delivery event p) pending
    ] in
      IsKeyed after
      × ((id : Bytes)
          → has_offer id after ≡ (
              if names id (elim parsed [ err _ ↦ none | ok p ↦ some p.invitation_id ])
              then true
              else has_offer id pending))
unfolding any
put-Stepped event pending (err _) h = (h, λ id. refl)
put-Stepped event pending (ok p) h = (
  (refl, IsKeyed-remove_key p.invitation_id pending h),
  λ id. ground (arith, has_offer-remove_key id p.invitation_id pending h),
)

remove-Stepped :
    (pending : Offers) (answered : Option Bytes)
    → IsKeyed pending
    → let after : Offers = elim answered [
      | none ↦ pending
      | some invitation_id ↦ remove_key bytes_eq invitation_id pending
    ] in
      IsKeyed after
      × ((id : Bytes)
          → has_offer id after ≡ (if names id answered then false else has_offer id pending))
remove-Stepped pending none h = (h, λ id. refl)
remove-Stepped pending (some key) h =
    (IsKeyed-remove_key key pending h, λ id. ground (arith, has_offer-remove_key id key pending h))

offer_step-Stepped :
    (root : PubKey) (event : Event) (pending : Offers) (kind : EventKind)
    → IsKeyed pending
    → Stepped root event pending kind
unfolding invitation_id_from_terminal_payload
offer_step-Stepped root event pending invitation_sent h =
    elim (Bool-cases (bytes_eq event.signer root)) [
      | inl own ↦ rw own (put-Stepped event pending (invitation_sent_from_bytes event.payload) h)
      | inr foreign ↦ rw foreign (h, λ id. refl)
    ]
offer_step-Stepped root event pending invitation_accepted h =
    remove-Stepped pending (invitation_id_from_terminal_payload invitation_accepted event.payload) h
offer_step-Stepped root event pending invitation_rejected h =
    remove-Stepped pending (invitation_id_from_terminal_payload invitation_rejected event.payload) h
offer_step-Stepped root event pending invitation_expired h =
    remove-Stepped pending (invitation_id_from_terminal_payload invitation_expired event.payload) h
offer_step-Stepped root event pending capsule_created h = (h, λ id. refl)
offer_step-Stepped root event pending invitation_received h = (h, λ id. refl)
offer_step-Stepped root event pending starter_created h = (h, λ id. refl)
offer_step-Stepped root event pending starter_burned h = (h, λ id. refl)
offer_step-Stepped root event pending relationship_established h = (h, λ id. refl)
offer_step-Stepped root event pending relationship_broken h = (h, λ id. refl)

has_offer-offer_loop :
    (root : PubKey) (id : Bytes) (pending : Offers) (events : List Event)
    → IsKeyed pending
    → has_offer id (offer_loop root pending events) ≡ waits root id (has_offer id pending) events
unfolding offer_loop waits
has_offer-offer_loop root id pending [] h = refl
has_offer-offer_loop root id pending (event ∷ events) h =
    let (keyed, stepped) = offer_step-Stepped root event pending event.kind h in
    has_offer-offer_loop root id (offer_step root event pending event.kind) events keyed
    ∙ ap (λ waiting. waits root id waiting events) (stepped id)

any-values :
    (id : Bytes) (pending : Offers)
    → any (λ d. bytes_eq d.invitation_id id) (map (λ e. e.1) pending) ≡ has_offer id pending
unfolding any
any-values id [] = refl
any-values id (e ∷ pending) = ap (◌||◌ (bytes_eq e.1.invitation_id id)) (any-values id pending)

-- The event names the invitation as accepted, rejected or expired, whoever signed it.
abbrev pub is_resolved_by : Bytes → List Event → Bool
is_resolved_by id events = any (λ event. resolves id event.payload event.kind) events

-- Whether the capsule has signed an offer with the id that no later event resolves.
unfoldable pub is_unanswered : PubKey → Bytes → List Event → Bool
is_unanswered root id [] = false
is_unanswered root id (event ∷ later) =
    (names id (own_offer root event event.kind) && not (is_resolved_by id later))
    || is_unanswered root id later

-- The two readings of the payload of an answer agree.
terminal-resolves :
    (id payload : Bytes) (kind : EventKind)
    → names id (invitation_id_from_terminal_payload kind payload) ≡ resolves id payload kind
unfolding invitation_id_from_terminal_payload
terminal-resolves id payload invitation_accepted = ground arith
terminal-resolves id payload invitation_rejected = ground arith
terminal-resolves id payload invitation_expired = ground arith
terminal-resolves id payload _ = refl

waits-is_unanswered :
    (root : PubKey) (id : Bytes) (waiting : Bool) (events : List Event)
    → waits root id waiting events
      ≡ ((waiting && not (is_resolved_by id events)) || is_unanswered root id events)
unfolding waits is_unanswered any
waits-is_unanswered root id waiting [] = ground arith
waits-is_unanswered root id waiting (event ∷ events) = ground (
  arith,
  waits-is_unanswered root id
      (if names id (own_offer root event event.kind)
        then true
        else if names id (invitation_id_from_terminal_payload event.kind event.payload)
        then false
        else waiting)
      events,
  terminal-resolves id event.payload event.kind,
)

-- The host delivers an offer with an id exactly if the capsule has signed an InvitationSent with
-- that id, whose payload parses, and no later event of the ledger resolves it: no acceptance (of 96
-- or 128 bytes), rejection (of 33) or expiry (of 32) names the id, whoever signed it. Other events
-- that name the id do not matter.
pub pending_outgoing_invitation_deliveries_in_runtime-unanswered :
    (capsule : Capsule) (id : Bytes)
    → any
        (λ d. bytes_eq d.invitation_id id)
        (pending_outgoing_invitation_deliveries_in_runtime (some capsule))
      ≡ is_unanswered capsule.pubkey id capsule.ledger.events
unfolding pending_outgoing_invitation_deliveries_in_runtime any
pending_outgoing_invitation_deliveries_in_runtime-unanswered capsule id =
    let offers = offer_loop capsule.pubkey [] capsule.ledger.events in
    any-sort_by offer_le (λ d. bytes_eq d.invitation_id id) (map (λ e. e.1) offers)
    ∙ (any-values id offers
        ∙ (has_offer-offer_loop capsule.pubkey id [] capsule.ledger.events tt
            ∙ (waits-is_unanswered capsule.pubkey id false capsule.ledger.events ∙ refl)))
