-- ===== src/Events.antt =====
-- core/hivra-core/src/event.rs: the signed domain event and its identifier.
--
-- SHA-256 is not part of the repository: the digest is the parameter `sha256`.
use hivra_app.Prelude.{
  ℕ, ◌≡◌, Bool, List, [], ◌∷◌, ◌++◌, ◌+◌, ◌*◌, ◌/◌, ◌%◌, ◌^◌, zero, suc, ◌==◌, if◌then◌else◌,
  length, same, ℕ_discrete,
}
use hivra_app.Primitives.{Bytes, PubKey, Signature, Timestamp}
pub mod Identity
mod Examples

abbrev pub protocol_version : ℕ
protocol_version = 4

abbrev pub continuous_ledger_protocol_version : ℕ
continuous_ledger_protocol_version = 5

-- b"hivra/domain-event/v5"
abbrev pub v5_domain_event_tag : Bytes
v5_domain_event_tag =
    b'h' ∷ b'i' ∷ b'v' ∷ b'r' ∷ b'a' ∷ b'/' ∷ b'd' ∷ b'o' ∷ b'm' ∷ b'a' ∷ b'i' ∷ b'n' ∷ b'-' ∷ b'e'
    ∷ b'v' ∷ b'e' ∷ b'n' ∷ b't' ∷ b'/' ∷ b'v' ∷ b'5' ∷ []

pub data EventKind : Type 0 where
  capsule_created invitation_sent invitation_accepted invitation_rejected : EventKind
  invitation_expired starter_created starter_burned : EventKind
  relationship_established relationship_broken invitation_received : EventKind

unfoldable pub EventKind-discrete : Discrete EventKind
EventKind-discrete = hlevel

abbrev pub event_kind_eq : EventKind → EventKind → Bool
event_kind_eq = same EventKind-discrete

-- `kind as u8`
unfoldable pub event_kind_byte : EventKind → ℕ
event_kind_byte capsule_created = 0
event_kind_byte invitation_sent = 1
event_kind_byte invitation_accepted = 2
event_kind_byte invitation_rejected = 3
event_kind_byte invitation_expired = 4
event_kind_byte starter_created = 5
event_kind_byte starter_burned = 6
event_kind_byte relationship_established = 7
event_kind_byte relationship_broken = 8
event_kind_byte invitation_received = 9

pub record Event : Type 0 where
  pub version : ℕ
  pub kind : EventKind
  pub payload : Bytes
  pub timestamp : Timestamp
  pub signature : Signature
  pub signer : PubKey

unfoldable pub Event-discrete : Discrete Event
unfolding ℕ_discrete
Event-discrete = hlevel ℕ_discrete

-- The derived `==`.
abbrev pub event_eq : Event → Event → Bool
event_eq = same Event-discrete

unfoldable pub new : EventKind → Bytes → Timestamp → Signature → PubKey → Event
new kind payload timestamp signature signer = record {
  version = protocol_version;
  kind = kind;
  payload = payload;
  timestamp = timestamp;
  signature = signature;
  signer = signer;
}

unfoldable pub new_v5 : EventKind → Bytes → Timestamp → Signature → PubKey → Event
new_v5 kind payload timestamp signature signer = record {
  version = continuous_ledger_protocol_version;
  kind = kind;
  payload = payload;
  timestamp = timestamp;
  signature = signature;
  signer = signer;
}

-- The last `n` bytes of a number, the highest first.
unfoldable pub be_bytes : ℕ → ℕ → Bytes
be_bytes zero x = []
be_bytes (suc n) x = (x / 256 ^ n % 256) ∷ be_bytes n x

-- `u64::to_be_bytes`
abbrev pub u64_be_bytes : ℕ → Bytes
u64_be_bytes = be_bytes 8

-- What `event_id` feeds to the hasher, one arm of its `match` for each version.
unfoldable pub event_preimage : Event → Bytes
event_preimage e =
    if e.version == protocol_version
    then e.version ∷ event_kind_byte e.kind ∷ e.payload
    else if e.version == continuous_ledger_protocol_version
    then v5_domain_event_tag
      ++ (e.version
          ∷ event_kind_byte e.kind
          ∷ (u64_be_bytes (length e.payload)
              ++ (e.payload ++ (u64_be_bytes e.timestamp ++ e.signer))))
    else e.version ∷ event_kind_byte e.kind ∷ (e.payload ++ (u64_be_bytes e.timestamp ++ e.signer))

unfoldable pub event_id : (Bytes → Bytes) → Event → Bytes
event_id sha256 e = sha256 (event_preimage e)
