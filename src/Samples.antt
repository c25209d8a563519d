-- ===== src/Samples.antt =====
-- Small events and ledgers for the examples, with a toy digest in place of SHA-256.
use hivra_app.Prelude.{ℕ, ◌+◌, ◌*◌, ◌%◌, none, List, [], ◌∷◌, ◌++◌, replicate}
use hivra_app.Primitives.{Bytes}
use hivra_app.Events.{Event, EventKind, starter_created, invitation_sent, invitation_expired}
use hivra_app.Ledger.{Ledger}
use mathlib.Core.List.{foldl}

abbrev pub toy_digest : Bytes → Bytes
toy_digest bytes = replicate 32 (foldl (λ h b. (h * 31 + b) % 256) 7 bytes)

abbrev pub key : ℕ → Bytes
key n = replicate 32 n

abbrev pub signed : ℕ → EventKind → Bytes → ℕ → Event
signed version kind payload at = record {
  version = version;
  kind = kind;
  payload = payload;
  timestamp = at;
  signature = replicate 64 0;
  signer = key 1;
}

-- The starter `key 3` of kind `seed` is created, offered to `key 2` by the invitation `key 5`,
-- and the offer is called back.
abbrev pub created : Event
created = signed 4 starter_created (key 3 ++ (key 4 ++ (2 ∷ 0 ∷ []))) 1

abbrev pub offered : Event
offered = signed 4 invitation_sent (key 5 ++ (key 3 ++ key 2)) 2

abbrev pub called_back : Event
called_back = signed 4 invitation_expired (key 5) 3

abbrev pub ledger_of : List Event → Ledger
ledger_of events = record { events = events; owner = key 1; last_hash = 0; continuity_v5 = none }

abbrev pub offering : Ledger
offering = ledger_of (created ∷ offered ∷ [])
