-- ===== src/Slots/Content.antt =====
-- Which starters `from_ledger` puts into the slots.
use hivra_app.Prelude.{◌≡◌, refl, ◌∙◌, true, false, ◌||◌, List, [], ◌∷◌, arith, any}
use hivra_app.Primitives.{Bytes, StarterId}
use hivra_app.Events.{Event}
use hivra_app.Ledger.{Ledger}
use hivra_app.Slots.Revoked.{revokes, contains-revoked_created_starter_ids}
use hivra_app.Slots.{
  SlotLayout, empty_layout, contains_starter, contains_id, lock_starter,
  revoked_created_starter_ids, locked_starter_ids,
}
use hivra_app.Slots.Projection.{
  Progress, create_starter, burn_starter, apply_event, apply_events, live_layout, from_ledger,
}
use hivra_app.Slots.Layouts.{IsLayout, contains-occupy, contains-free, contains-lock, lock-IsLayout}
use mathlib.Core.List.{foldl}
use hivra_app.Slots.Effects.{
  creates, burns, contains_id-push_unique, IsProgress, create-IsProgress, burn-IsProgress, Effect,
  nothing, create, burn, effect_of, perform, is_create, is_burn, apply_event-effect, creates-effect,
  burns-effect,
}

perform-IsProgress :
    (revoked : List StarterId) (p : Progress) (f : Effect)
    → IsProgress revoked p
    → IsProgress revoked (perform revoked p f)
perform-IsProgress revoked p nothing h = h
perform-IsProgress revoked p (create x) h = create-IsProgress revoked p x h
perform-IsProgress revoked p (burn x) h = burn-IsProgress revoked p x h

perform_brings :
    (revoked : List StarterId) (p : Progress) (f : Effect) (id : StarterId)
    → IsProgress revoked p
    → contains_starter (perform revoked p f).layout id ≡ true
    → (contains_starter p.layout id || is_create id f) ≡ true
unfolding create_starter burn_starter
perform_brings revoked p nothing id h c = ground arith
perform_brings revoked p (create x) id h c = ground (arith, contains-occupy id p.layout x)
perform_brings revoked p (burn x) id h c =
    ground (arith, contains-free id p.layout x h.layout_ok.distinct)

perform_burns :
    (revoked : List StarterId) (p : Progress) (f : Effect) (id : StarterId)
    → contains_id (perform revoked p f).burned id ≡ (contains_id p.burned id || is_burn id f)
unfolding create_starter burn_starter
perform_burns revoked p nothing id = ground arith
perform_burns revoked p (create x) id = ground arith
perform_burns revoked p (burn x) id = contains_id-push_unique p.burned x id

module _ (owner : Bytes) (revoked : List StarterId) where
  events-IsProgress :
      (p : Progress) (events : List Event)
      → IsProgress revoked p
      → IsProgress revoked (apply_events owner revoked p events)
  unfolding apply_events
  events-IsProgress p [] h = h
  events-IsProgress p (e ∷ events) h = events-IsProgress (apply_event owner revoked p e) events (
      rw (apply_event-effect owner revoked p e)
        (perform-IsProgress revoked p (effect_of owner e) h))

  events_bring :
      (p : Progress) (events : List Event) (id : StarterId)
      → IsProgress revoked p
      → contains_starter (apply_events owner revoked p events).layout id ≡ true
      → (contains_starter p.layout id || any (creates owner id) events) ≡ true
  unfolding apply_events any
  events_bring p [] id h c = ground arith
  events_bring p (e ∷ events) id h c = ground (
    arith,
    creates-effect owner id e,
    perform_brings revoked p (effect_of owner e) id h,
    events_bring (perform revoked p (effect_of owner e)) events id
        (perform-IsProgress revoked p (effect_of owner e) h),
    apply_event-effect owner revoked p e,
  )

  events_burn :
      (p : Progress) (events : List Event) (id : StarterId)
      → contains_id (apply_events owner revoked p events).burned id
        ≡ (contains_id p.burned id || any (burns owner id) events)
  unfolding apply_events any
  events_burn p [] id = ground arith
  events_burn p (e ∷ events) id = ground (
    arith,
    burns-effect owner id e,
    perform_burns revoked p (effect_of owner e) id,
    events_burn (perform revoked p (effect_of owner e)) events id,
    apply_event-effect owner revoked p e,
  )

pub contains-locks :
    (slots : SlotLayout) (ids : List StarterId) (id : StarterId)
    → contains_starter (foldl lock_starter slots ids) id ≡ contains_starter slots id
contains-locks slots [] id = refl
contains-locks slots (x ∷ ids) id =
    contains-locks (lock_starter slots x) ids id ∙ contains-lock id slots x

locks-IsLayout :
    (slots : SlotLayout) (ids : List StarterId)
    → IsLayout slots
    → IsLayout (foldl lock_starter slots ids)
locks-IsLayout slots [] h = h
locks-IsLayout slots (x ∷ ids) h =
    locks-IsLayout (lock_starter slots x) ids (lock-IsLayout slots x h)

start-IsProgress :
    (revoked : List StarterId) → IsProgress revoked (record { layout = empty_layout; burned = [] })
unfolding contains_starter any
start-IsProgress revoked = record {
  layout_ok = record { five = refl; distinct = ground arith };
  burned_out = λ id e. refl;
  revoked_out = λ id e. refl;
}

-- The projected layout always has five slots that hold different starters.
pub from_ledger-IsLayout : (ledger : Ledger) → IsLayout (from_ledger ledger)
unfolding from_ledger live_layout
from_ledger-IsLayout ledger =
    let revoked = revoked_created_starter_ids ledger in
    locks-IsLayout _ (locked_starter_ids ledger)
      (events-IsProgress ledger.owner revoked _ ledger.events (start-IsProgress revoked)).layout_ok

-- A starter that the projected layout holds was created by an event of the owner, was never
-- burned by the owner, before or after, and was not created under a revoked invitation: no
-- acceptance in the ledger names it for an invitation whose expiry is there too, signed by the
-- signer of a received offer of that invitation.
pub from_ledger-holds :
    (ledger : Ledger) (id : StarterId)
    → contains_starter (from_ledger ledger) id ≡ true
    → (any (creates ledger.owner id) ledger.events ≡ true)
      × (any (burns ledger.owner id) ledger.events ≡ false)
      × (any (revokes ledger.events id) ledger.events ≡ false)
unfolding from_ledger live_layout
from_ledger-holds ledger id c = ground (
  arith,
  contains-locks live.layout (locked_starter_ids ledger) id,
  events_bring ledger.owner revoked start ledger.events id (start-IsProgress revoked),
  events_burn ledger.owner revoked start ledger.events id,
  ended.burned_out id,
  ended.revoked_out id,
  empty_holds_none,
  contains-revoked_created_starter_ids ledger id,
)
  where
    revoked : List StarterId
    revoked = revoked_created_starter_ids ledger

    start : Progress
    start = record { layout = empty_layout; burned = [] }

    live : Progress
    live = apply_events ledger.owner revoked start ledger.events

    ended : IsProgress revoked live
    ended = events-IsProgress ledger.owner revoked start ledger.events (start-IsProgress revoked)

    empty_holds_none : (contains_starter empty_layout id ≡ false) × (contains_id [] id ≡ false)
    empty_holds_none = unfold contains_starter any in (refl, refl)
