-- ===== src/Lib.antt =====
-- Hivra: the capsule core (core/hivra-core), a library of projections over a signed, append-only
-- journal, and the engine (engine/hivra-engine), which prepares and verifies what is signed.
--
-- A capsule owns a ledger of events. The ledger takes events one by one (protocol 4, with a
-- checksum over the history) or as entries of a commitment chain (protocol 5, fresh or behind a
-- migrated v4 prefix). Everything else is computed from the ledger: the five starter slots with
-- their locks, the invitations with their status, the plan for accepting one, the relationships.
--
-- The engine holds the clock, the generator, the cryptography and the key store. It signs the events
-- and entries that the ledger takes, checks the signatures of a ledger that the core verifies only
-- in its structure, and answers a peer's acceptance with the relationship event to append.
--
-- Between the network and the ledger stands the inbound quarantine: an envelope that the transport
-- has received is charged to its sender's token bucket, waits in a bounded store if there is no
-- permit for it or it cannot be routed yet, is recovered later, and leaves a tombstone when it is
-- consumed or expires.
--
-- Files and the code they model, below core/hivra-core/src unless a path is given:
--   Primitives     primitives.rs: byte codes of kinds, networks and slots
--   Events         event.rs: Event, event_id (Identity: what the identifier's bytes determine)
--   Payloads       event_payloads.rs: to_bytes and from_bytes of every payload (RoundTrip,
--                  Established and Wire: both directions; Slices: lemmas on slices)
--   LedgerV5       ledger_v5.rs: anchors, entries and commitments
--   Ledger         ledger.rs: append, append_v5, verify, migrate_v4 (Checksum and Journal for
--                  protocol 4; Continuity, Extension and Duplicates for protocol 5; Reachable and
--                  AppendOnly for all ledgers that the operations build)
--   Slots          slot.rs: helpers, revocations and locks (Projection: from_ledger and queries;
--                  Layouts, Effects, Revoked, Content, Offered and Locks:
--                  its properties)
--   Invitations    invitation.rs (Records: the loop of invitations_with_status; View: the views;
--                  Accept: plan_accept_for_kind; Follow, Status, Unique and Plan: properties)
--   Starters       starter.rs: the entity and its derived id (Identity: what its bytes determine)
--   Relationships  relationship.rs: the collection Relationships (Keys: its properties), and the
--                  view relationship_current_view_v1 (Projection: its loop over the events; View:
--                  sorting and peer identities; Apart, Projected and Order: properties)
--   History        history.rs: project_event and history_view_v1 (Concerns and Codes: what
--                  an event names; Entries: its property)
--   Pairs          pair.rs: pair_view_v1 (Capsules: capsule.rs; Peers: its property)
--   Engine         engine/hivra-engine/src/lib.rs: the traits as records of operations, signing and
--                  verification (Prepare: the prepared events; Incoming: plans and effects of
--                  answers; Signing, Verified, Attested, Migration and Offers: properties)
--   Transport      adapters/hivra-transport/src/lib.rs: envelopes, the guard, the manager (Fallback)
--   Quarantine     platform/hivra-ffi/src/inbound_quarantine.rs: constants, records and snapshot
--                  (Text: ids and hexadecimal strings; Validation: validate_snapshot; Policies: the
--                  token buckets; Records: waiting records and tombstones; Store: the operations of
--                  the repository; Steps, Counting, Bounded, Kept, Reachable, Rate, Senders,
--                  Decisions, Served, Ended, Expired and Due: properties)
--   Deliveries     platform/hivra-ffi/src/invitation_support.rs: what the host reads from the ledger
--                  (Pending, Terminals: what it still has to deliver; Skipped: which incoming
--                  deliveries it leaves out; Acceptance: the local plan of an acceptance, with
--                  runtime_support.rs; Once and Unanswered: properties)
--   Samples        small ledgers for the modules named Examples
--   Prelude        shared names, Boolean tests, lists, searches and results
--
-- Conventions. A number of the code is a natural number; a u8, u64 or usize is not bounded by its
-- type, and where a property depends on the width it has a hypothesis (EventFits). The checksum is
-- computed modulo 2^64. An array [u8; n] is a list of numbers, with IsArray n where the length
-- matters. Methods on &mut self return the state after the call. A loop over the events is
-- recursion on the list, so that no fuel is needed. Strings of views are strings.
--
-- The engine's sources are what they answer to one call, since a call reads each of them at most
-- once; the key store is a function of the message. That it signs for the owner (SignsAs) is the
-- hypothesis of the engine's properties.
--
-- SHA-256 (crate sha2) is the parameter sha256, any function on byte lists: no property needs more
-- of it. The v4 checksum hashes through core::hash; its byte stream on a 64-bit little-endian
-- target is written out in hash_event.
--
-- The quarantine's strings are their UTF-8 bytes, its times are bounded where the code saturates at
-- the largest u64. Serialisation (crate wincode), sealing (key store) and files are the parameter
-- Host; it may answer anything, failures included. In the code and here, an operation that fails to
-- store its snapshot has changed the one in memory. The file's path, the temporary file, the fallback
-- to the older snapshot format and the process-wide lock stand behind Host and are not modelled. A
-- snapshot is not checked for its bounds when the properties of the quarantine start from one; an
-- empty snapshot has them.
--
-- The host's global runtime is an argument, the capsule that it holds, if any, and its hash maps are
-- lists of entries with distinct keys, which the code sorts before it returns them.
--
-- Not modelled: the appends of the host through the engine (the rest of invitation_support.rs), the
-- C boundary of the FFI with its global runtime, chat and delivery caches, and the adapters: the
-- Nostr client, key stores, cryptography, WASM and the Flutter application, which are input and
-- output around third-party libraries.
pub mod Prelude
pub mod Primitives
pub mod Events
pub mod Payloads
pub mod LedgerV5
pub mod Ledger
pub mod Slots
pub mod Invitations
pub mod Starters
pub mod Relationships
pub mod Samples
pub mod History
pub mod Engine
pub mod Transport
pub mod Quarantine
pub mod Pairs
pub mod Deliveries
