-- ===== src/Payloads.antt =====
-- core/hivra-core/src/event_payloads.rs: the binary payloads of the domain events.
--
-- One record for each payload struct, with its `to_bytes` and `from_bytes`. An index or a slice
-- out of range panics in Rust; here it reads 0 or a shorter slice, and every parser tests the
-- length before it reads.
pub mod Slices
pub mod RoundTrip
pub mod Established
pub mod Wire
mod Examples
use hivra_app.Prelude.{
  ℕ, ◌≡◌, Bool, true, false, ◌&&◌, ◌||◌, not, Option, none, some, List, [], ◌∷◌, ◌++◌, ltb, leb,
  ◌==◌, if◌then◌else◌, length, take, drop, get_or, Result, ok, err, ok_or, ◌>>=◌,
}
use hivra_app.Primitives.{Bytes, PubKey, StarterId, StarterKind, kind_to_byte, kind_from_u8}
use Prim.Native.String.{String}

-- The `&'static str` of a failed parse.
abbrev pub Parsed : Type 0 → Type 0
Parsed A = Result String A

unfoldable pub read_fixed_32 : Bytes → ℕ → Bytes
read_fixed_32 bytes start = take 32 (drop start bytes)

-- An optional key, written only if it is there.
abbrev pub optional_bytes : Option Bytes → Bytes
optional_bytes none = []
optional_bytes (some bytes) = bytes

abbrev pub read_if : Bool → Bytes → ℕ → Option Bytes
read_if present bytes start = if present then some (read_fixed_32 bytes start) else none

pub data RejectReason : Type 0 where
  empty_slot other : RejectReason

unfoldable pub reason_to_byte : RejectReason → ℕ
reason_to_byte empty_slot = 0
reason_to_byte other = 1

unfoldable pub reason_from_u8 : ℕ → Parsed RejectReason
reason_from_u8 value =
    if value == 0
    then ok empty_slot
    else if value == 1
    then ok other
    else err "invalid reject reason"

pub record CapsuleCreated : Type 0 where
  pub network : ℕ
  pub capsule_type : ℕ

unfoldable pub capsule_created_to_bytes : CapsuleCreated → Bytes
capsule_created_to_bytes p = p.network ∷ p.capsule_type ∷ []

unfoldable pub capsule_created_from_bytes : Bytes → Parsed CapsuleCreated
capsule_created_from_bytes bytes =
    if not (length bytes == 2)
    then err "invalid capsule_created payload length"
    else ok (record { network = get_or bytes 0 0; capsule_type = get_or bytes 1 0 })

pub record InvitationSent : Type 0 where
  pub invitation_id : Bytes
  pub starter_id : StarterId
  pub to_pubkey : PubKey
  pub sender_root_pubkey : Option PubKey

unfoldable pub invitation_sent_to_bytes : InvitationSent → Bytes
invitation_sent_to_bytes p =
    p.invitation_id ++ (p.starter_id ++ (p.to_pubkey ++ optional_bytes p.sender_root_pubkey))

-- The lengths 97, 129, 161 and 225 are the wire forms with a kind, a transport key and a signature.
unfoldable pub invitation_sent_from_bytes : Bytes → Parsed InvitationSent
invitation_sent_from_bytes bytes =
    if not (length bytes == 96)
      && (not (length bytes == 97)
          && (not (length bytes == 128)
              && (not (length bytes == 129)
                  && (not (length bytes == 161) && not (length bytes == 225)))))
    then err "invalid invitation_sent payload length"
    else ok (record {
      invitation_id = read_fixed_32 bytes 0;
      starter_id = read_fixed_32 bytes 32;
      to_pubkey = read_fixed_32 bytes 64;
      sender_root_pubkey = read_if (leb 128 (length bytes)) bytes 96;
    })

pub record InvitationAccepted : Type 0 where
  pub invitation_id : Bytes
  pub from_pubkey : PubKey
  pub created_starter_id : StarterId
  pub accepter_root_pubkey : Option PubKey

unfoldable pub invitation_accepted_to_bytes : InvitationAccepted → Bytes
invitation_accepted_to_bytes p =
    p.invitation_id
    ++ (p.from_pubkey ++ (p.created_starter_id ++ optional_bytes p.accepter_root_pubkey))

unfoldable pub invitation_accepted_from_bytes : Bytes → Parsed InvitationAccepted
invitation_accepted_from_bytes bytes =
    if not (length bytes == 96) && not (length bytes == 128)
    then err "invalid invitation_accepted payload length"
    else ok (record {
      invitation_id = read_fixed_32 bytes 0;
      from_pubkey = read_fixed_32 bytes 32;
      created_starter_id = read_fixed_32 bytes 64;
      accepter_root_pubkey = read_if (leb 128 (length bytes)) bytes 96;
    })

pub record InvitationRejected : Type 0 where
  pub invitation_id : Bytes
  pub reason : RejectReason

unfoldable pub invitation_rejected_to_bytes : InvitationRejected → Bytes
invitation_rejected_to_bytes p = p.invitation_id ++ (reason_to_byte p.reason ∷ [])

unfoldable pub invitation_rejected_from_bytes : Bytes → Parsed InvitationRejected
invitation_rejected_from_bytes bytes =
    if not (length bytes == 33) then err "invalid invitation_rejected payload length" else do
      reason ← reason_from_u8 (get_or bytes 32 0)
      ok (record { invitation_id = read_fixed_32 bytes 0; reason = reason })

pub record InvitationExpired : Type 0 where
  pub invitation_id : Bytes

unfoldable pub invitation_expired_to_bytes : InvitationExpired → Bytes
invitation_expired_to_bytes p = p.invitation_id

unfoldable pub invitation_expired_from_bytes : Bytes → Parsed InvitationExpired
invitation_expired_from_bytes bytes =
    if not (length bytes == 32)
    then err "invalid invitation_expired payload length"
    else ok (record { invitation_id = read_fixed_32 bytes 0 })

pub record StarterCreated : Type 0 where
  pub starter_id : StarterId
  pub nonce : Bytes
  pub kind : StarterKind
  pub network : ℕ

unfoldable pub starter_created_to_bytes : StarterCreated → Bytes
starter_created_to_bytes p = p.starter_id ++ (p.nonce ++ (kind_to_byte p.kind ∷ p.network ∷ []))

unfoldable pub starter_created_from_bytes : Bytes → Parsed StarterCreated
starter_created_from_bytes bytes =
    if not (length bytes == 66) then err "invalid starter_created payload length" else do
      kind ← ok_or (kind_from_u8 (get_or bytes 64 0)) "invalid starter kind"
      ok (record {
        starter_id = read_fixed_32 bytes 0;
        nonce = read_fixed_32 bytes 32;
        kind = kind;
        network = get_or bytes 65 0;
      })

pub record StarterBurned : Type 0 where
  pub starter_id : StarterId
  pub reason : ℕ

unfoldable pub starter_burned_to_bytes : StarterBurned → Bytes
starter_burned_to_bytes p = p.starter_id ++ (p.reason ∷ [])

unfoldable pub starter_burned_from_bytes : Bytes → Parsed StarterBurned
starter_burned_from_bytes bytes =
    if not (length bytes == 33)
    then err "invalid starter_burned payload length"
    else ok (record { starter_id = read_fixed_32 bytes 0; reason = get_or bytes 32 0 })

pub record RelationshipEstablished : Type 0 where
  pub peer_pubkey : PubKey
  pub own_starter_id : StarterId
  pub peer_starter_id : StarterId
  pub kind : StarterKind
  pub invitation_id : Bytes
  pub sender_pubkey : PubKey
  pub sender_starter_type : StarterKind
  pub sender_starter_id : StarterId
  pub peer_root_pubkey : Option PubKey
  pub sender_root_pubkey : Option PubKey

-- The sender's root is written only behind the peer's root.
abbrev root_bytes : Option PubKey → Option PubKey → Bytes
root_bytes none sender_root = []
root_bytes (some peer_root) sender_root = peer_root ++ optional_bytes sender_root

unfoldable pub relationship_established_to_bytes : RelationshipEstablished → Bytes
relationship_established_to_bytes p =
    p.peer_pubkey
    ++ (p.own_starter_id
        ++ (p.peer_starter_id
            ++ (kind_to_byte p.kind
                ∷ (p.invitation_id
                    ++ (p.sender_pubkey
                        ++ (kind_to_byte p.sender_starter_type
                            ∷ (p.sender_starter_id
                                ++ root_bytes p.peer_root_pubkey p.sender_root_pubkey)))))))

unfoldable pub relationship_established_from_bytes : Bytes → Parsed RelationshipEstablished
relationship_established_from_bytes bytes =
    if not (length bytes == 194) && (not (length bytes == 226) && not (length bytes == 258))
    then err "invalid relationship_established payload length"
    else do
      kind ← ok_or (kind_from_u8 (get_or bytes 96 0)) "invalid starter kind"
      sender_starter_type ← ok_or (kind_from_u8 (get_or bytes 161 0)) "invalid sender starter kind"
      ok (record {
        peer_pubkey = read_fixed_32 bytes 0;
        own_starter_id = read_fixed_32 bytes 32;
        peer_starter_id = read_fixed_32 bytes 64;
        kind = kind;
        invitation_id = read_fixed_32 bytes 97;
        sender_pubkey = read_fixed_32 bytes 129;
        sender_starter_type = sender_starter_type;
        sender_starter_id = read_fixed_32 bytes 162;
        peer_root_pubkey = read_if (leb 226 (length bytes)) bytes 194;
        sender_root_pubkey = read_if (leb 258 (length bytes)) bytes 226;
      })

pub record RelationshipBroken : Type 0 where
  pub peer_pubkey : PubKey
  pub own_starter_id : StarterId
  pub peer_root_pubkey : Option PubKey

unfoldable pub relationship_broken_to_bytes : RelationshipBroken → Bytes
relationship_broken_to_bytes p =
    p.peer_pubkey ++ (p.own_starter_id ++ optional_bytes p.peer_root_pubkey)

unfoldable pub relationship_broken_from_bytes : Bytes → Parsed RelationshipBroken
relationship_broken_from_bytes bytes =
    if not (length bytes == 64) && not (length bytes == 96)
    then err "invalid relationship_broken payload length"
    else ok (record {
      peer_pubkey = read_fixed_32 bytes 0;
      own_starter_id = read_fixed_32 bytes 32;
      peer_root_pubkey = read_if (leb 96 (length bytes)) bytes 64;
    })
