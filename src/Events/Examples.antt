-- ===== src/Events/Examples.antt =====
-- The identity of events at two concrete events.
use hivra_app.Prelude.{◌≡◌, refl, inr, arith}
use hivra_app.Events.{Event, continuous_ledger_protocol_version, invitation_expired}
use hivra_app.Events.Identity.{EventFits, event_preimage-injective}
use hivra_app.Samples.{key, signed}

abbrev expiry : Event
expiry = signed 5 invitation_expired (key 5) 10

expiry-EventFits : EventFits expiry
expiry-EventFits = record {
  version_known = inr refl;
  payload_fits = omega arith;
  timestamp_fits = omega arith;
  signer_fits = refl;
}

event_preimage-injective_example :
    (expiry.version ≡ expiry.version)
    × (expiry.kind ≡ expiry.kind)
    × (expiry.payload ≡ expiry.payload)
    × (expiry.version ≡ continuous_ledger_protocol_version
        → (expiry.timestamp ≡ expiry.timestamp) × (expiry.signer ≡ expiry.signer))
event_preimage-injective_example =
    event_preimage-injective expiry expiry expiry-EventFits expiry-EventFits refl
