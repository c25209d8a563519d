-- ===== src/Slots/Examples.antt =====
-- The projection of the slots at a concrete ledger: a starter is created and then offered.
use hivra_app.Prelude.{◌≡◌, ◌≤◌, ◌<◌, refl, [], true, false, ◌&&◌, any, length}
use hivra_app.Slots.{
  contains_starter, contains_id, revoked_created_starter_ids, locked_starter_ids, pending_after,
}
use hivra_app.Slots.Projection.{from_ledger}
use hivra_app.Slots.Revoked.{revokes}
use hivra_app.Slots.Layouts.{IsLayout}
use hivra_app.Slots.Effects.{creates, burns}
use hivra_app.Slots.Content.{from_ledger-IsLayout, from_ledger-holds}
use hivra_app.Slots.Offered.{is_offered}
use hivra_app.Slots.Locks.{is_locked, from_ledger-locked, locked_starter_ids-offers}
use hivra_app.Samples.{key, offering}

from_ledger-IsLayout_example : IsLayout (from_ledger offering)
from_ledger-IsLayout_example = from_ledger-IsLayout offering

held : contains_starter (from_ledger offering) (key 3) ≡ true
unfolding contains_starter any from_ledger locked_starter_ids hivra_app.Slots.first_five
    pending_after hivra_app.Primitives.Bytes-discrete hivra_app.Payloads.invitation_sent_from_bytes
    hivra_app.Slots.lock_starter hivra_app.Slots.set_where hivra_app.Prelude.position
    hivra_app.Slots.Projection.live_layout hivra_app.Slots.Projection.apply_events
    hivra_app.Slots.Projection.apply_event hivra_app.Payloads.starter_created_from_bytes
    hivra_app.Primitives.kind_from_u8 hivra_app.Slots.Projection.create_starter
    hivra_app.Payloads.read_fixed_32 hivra_app.Prelude.retain hivra_app.Slots.expired_ids
    hivra_app.Slots.occupy_first_free revoked_created_starter_ids hivra_app.Slots.revoked_ids
    hivra_app.Slots.sender_signed_offer_exists hivra_app.Events.EventKind-discrete
    hivra_app.Prelude.ℕ_discrete
held = refl

from_ledger-holds_example :
    (any (creates (key 1) (key 3)) offering.events ≡ true)
    × (any (burns (key 1) (key 3)) offering.events ≡ false)
    × (any (revokes offering.events (key 3)) offering.events ≡ false)
from_ledger-holds_example = from_ledger-holds offering (key 3) held

from_ledger-locked_example : is_locked (from_ledger offering) (key 3) ≡ (
    contains_starter (from_ledger offering) (key 3)
    && contains_id (locked_starter_ids offering) (key 3))
from_ledger-locked_example = from_ledger-locked offering (key 3)

locked_starter_ids-offers_example :
    (length (locked_starter_ids offering) ≤ 5)
    × (contains_id (locked_starter_ids offering) (key 3) ≡ true
        → is_offered (key 1) (key 3) offering.events ≡ true)
    × (length (locked_starter_ids offering) < 5
        → contains_id (locked_starter_ids offering) (key 3)
          ≡ is_offered (key 1) (key 3) offering.events)
locked_starter_ids-offers_example = locked_starter_ids-offers offering (key 3)
