-- ===== src/Slots/Locks.antt =====
-- Which slots the projection locks: those of the starters offered in pending invitations.
use hivra_app.Prelude.{
  ◌≡◌, ◌≤◌, ◌<◌, ◌∙◌, refl, Bool, true, false, ◌&&◌, ◌||◌, List, [], ◌∷◌, ◌++◌, arith, length,
  length-append, any, any-append, Bool-cases, inl, inr, any-same_of_eq, leb,
}
use hivra_app.Primitives.{Bytes, bytes_eq, StarterId, Bytes-discrete}
use hivra_app.Events.{Event}
use hivra_app.Ledger.{Ledger}
use hivra_app.Slots.{
  SlotState, empty, occupied, locked, SlotLayout, empty_layout, contains_starter, contains_id,
  occupy_first_free, free_starter, lock_starter, Pending, pending_after, first_five,
  revoked_created_starter_ids, locked_starter_ids,
}
use hivra_app.Slots.Projection.{
  Progress, create_starter, burn_starter, apply_event, apply_events, live_layout, from_ledger,
}
use hivra_app.Slots.Layouts.{set_where_nil, set_where_cons, contains-lock}
use hivra_app.Slots.Effects.{Effect, nothing, create, burn, effect_of, perform, apply_event-effect}
use hivra_app.Slots.Offered.{is_offered, pending_after-offers}
use hivra_app.Slots.Content.{contains-locks}
use mathlib.Core.List.{foldl}

abbrev pub locks : StarterId → SlotState → Bool
locks id empty = false
locks id (occupied _) = false
locks id (locked x) = bytes_eq x id

-- Whether a slot is locked with the starter.
pub is_locked : SlotLayout → StarterId → Bool
is_locked slots id = any (locks id) slots

module _ (id : StarterId) where
  locked-lock :
      (slots : SlotLayout) (x : StarterId)
      → is_locked (lock_starter slots x) id
        ≡ (is_locked slots id || (bytes_eq x id && contains_starter slots id))
  unfolding is_locked lock_starter contains_starter any
  locked-lock [] x = rw set_where_nil (ground arith)
  locked-lock (s ∷ slots) x = rw set_where_cons (ground (arith, locked-lock slots x))

  locked-occupy :
      (slots : SlotLayout) (x : StarterId)
      → is_locked (occupy_first_free slots x) id ≡ is_locked slots id
  unfolding is_locked occupy_first_free any
  locked-occupy [] x = rw set_where_nil
  locked-occupy (s ∷ slots) x = rw set_where_cons (ground (arith, locked-occupy slots x))

  unlocked-free :
      (slots : SlotLayout) (x : StarterId)
      → is_locked slots id ≡ false
      → is_locked (free_starter slots x) id ≡ false
  unfolding is_locked free_starter any
  unlocked-free [] x h = rw set_where_nil
  unlocked-free (s ∷ slots) x h = rw set_where_cons (ground (arith, unlocked-free slots x))

  unlocked-perform :
      (revoked : List StarterId) (p : Progress) (f : Effect)
      → is_locked p.layout id ≡ false
      → is_locked (perform revoked p f).layout id ≡ false
  unfolding create_starter burn_starter
  unlocked-perform revoked p nothing h = h
  unlocked-perform revoked p (create x) h = ground (arith, locked-occupy p.layout x)
  unlocked-perform revoked p (burn x) h = unlocked-free p.layout x h

  unlocked-events :
      (owner : Bytes) (revoked : List StarterId) (p : Progress) (events : List Event)
      → is_locked p.layout id ≡ false
      → is_locked (apply_events owner revoked p events).layout id ≡ false
  unfolding apply_events
  unlocked-events owner revoked p [] h = h
  unlocked-events owner revoked p (e ∷ events) h =
      unlocked-events owner revoked (apply_event owner revoked p e) events (
        rw (apply_event-effect owner revoked p e)
          (unlocked-perform revoked p (effect_of owner e) h))

  locked-locks :
      (slots : SlotLayout) (ids : List StarterId)
      → is_locked (foldl lock_starter slots ids) id
        ≡ (is_locked slots id || (contains_id ids id && contains_starter slots id))
  unfolding any
  locked-locks slots [] = ground arith
  locked-locks slots (x ∷ ids) = ground (
    arith,
    locked-locks (lock_starter slots x) ids,
    locked-lock slots x,
    contains-lock id slots x,
  )

-- A slot of the projected layout is locked exactly when it holds a starter that is to be locked.
pub from_ledger-locked :
    (ledger : Ledger) (id : StarterId)
    → is_locked (from_ledger ledger) id
      ≡ (contains_starter (from_ledger ledger) id && contains_id (locked_starter_ids ledger) id)
unfolding from_ledger live_layout
from_ledger-locked ledger id = ground (
  arith,
  locked-locks id live (locked_starter_ids ledger),
  unlocked-events id ledger.owner revoked (record { layout = empty_layout; burned = [] })
      ledger.events nothing_locked,
  contains-locks live (locked_starter_ids ledger) id,
)
  where
    revoked : List StarterId
    revoked = revoked_created_starter_ids ledger

    live : SlotLayout
    live =
        (apply_events ledger.owner revoked (record { layout = empty_layout; burned = [] })
          ledger.events).layout

    nothing_locked : is_locked empty_layout id ≡ false
    nothing_locked = unfold is_locked any in refl

-- Whether a pending invitation offers the starter.
abbrev offers : StarterId → Pending → Bool
offers id pending = any (λ p. bytes_eq p.1 id) pending

contains_id-append_one :
    (ids : List StarterId) (x id : StarterId)
    → contains_id (ids ++ (x ∷ [])) id ≡ (contains_id ids id || bytes_eq x id)
contains_id-append_one ids x id = any-append _ ids (x ∷ []) ∙ (unfold any in ground arith)

first_five_lem :
    (ids : List StarterId) (pending : Pending) (id : StarterId)
    → length ids ≤ 5
    → (length (first_five ids pending) ≤ 5)
      × (contains_id (first_five ids pending) id ≡ true
          → (contains_id ids id || offers id pending) ≡ true)
      × (length (first_five ids pending) < 5
          → contains_id (first_five ids pending) id ≡ (contains_id ids id || offers id pending))
unfolding first_five
first_five_lem ids [] id h = unfold any in ground arith
first_five_lem ids ((i, x) ∷ pending) id h = elim (Bool-cases (contains_id ids x)) [
  | inl seen ↦
      rw (seen, offers_cons)
        (ground (arith, first_five_lem ids pending id h, any-same_of_eq Bytes-discrete ids x id))
  | inr new ↦ elim (Bool-cases (leb 5 (length ids))) [
    | inl full ↦ rw (new, full) (ground arith)
    | inr room ↦
        rw (new, room, offers_cons)
          (ground (
            arith,
            first_five_lem (ids ++ (x ∷ [])) pending id,
            length-append ids (x ∷ []),
            contains_id-append_one ids x id,
          ))
  ]
]
  where
    offers_cons : offers id ((i, x) ∷ pending) ≡ (bytes_eq x id || offers id pending)
    offers_cons = unfold any in refl

-- At most five starters are to be locked; each is offered by an invitation that the owner has sent
-- and that no later acceptance, rejection or expiry answers, whoever signed that; and with fewer
-- than five of them, every starter that is so offered is one. Payloads that do not parse neither
-- offer nor answer.
pub locked_starter_ids-offers :
    (ledger : Ledger) (id : StarterId)
    → (length (locked_starter_ids ledger) ≤ 5)
      × (contains_id (locked_starter_ids ledger) id ≡ true
          → is_offered ledger.owner id ledger.events ≡ true)
      × (length (locked_starter_ids ledger) < 5
          → contains_id (locked_starter_ids ledger) id ≡ is_offered ledger.owner id ledger.events)
unfolding locked_starter_ids any
locked_starter_ids-offers ledger id =
    let pending = pending_after ledger.owner [] ledger.events in
    let offered : offers id pending ≡ is_offered ledger.owner id ledger.events =
      pending_after-offers ledger.owner id [] ledger.events in
    ground (arith, first_five_lem [] pending id (omega arith), offered)
