-- ===== src/Payloads/RoundTrip.antt =====
-- Parsing what was serialised gives the payload back.
use hivra_app.Prelude.{◌≡◌, Option, none, some, ◌∷◌, [], ◌++◌, arith, ok, length-append}
use hivra_app.Primitives.{Bytes, IsArray, IsArray?, kind_to_byte}
use hivra_app.Primitives.Codes.{kind_from_u8-to_byte}
use hivra_app.Payloads.{
  reason_to_byte, reason_from_u8, InvitationSent, invitation_sent_to_bytes,
  invitation_sent_from_bytes, InvitationAccepted, invitation_accepted_to_bytes,
  invitation_accepted_from_bytes, InvitationRejected, RejectReason, invitation_rejected_to_bytes,
  invitation_rejected_from_bytes, StarterCreated, starter_created_to_bytes,
  starter_created_from_bytes, StarterBurned, starter_burned_to_bytes, starter_burned_from_bytes,
  RelationshipEstablished, RelationshipBroken, relationship_broken_to_bytes,
  relationship_broken_from_bytes, optional_bytes,
}
use hivra_app.Payloads.Slices.{
  read-head, read_self, read-past, get_or-past, row, row_fields, read-row-past,
}

-- The arrays of each payload have their declared lengths.
pub record SentFits (p : InvitationSent) : Type 0 where
  pub id_fits : IsArray 32 p.invitation_id
  pub starter_fits : IsArray 32 p.starter_id
  pub to_fits : IsArray 32 p.to_pubkey
  pub root_fits : IsArray? 32 p.sender_root_pubkey

pub record AcceptedFits (p : InvitationAccepted) : Type 0 where
  pub id_fits : IsArray 32 p.invitation_id
  pub from_fits : IsArray 32 p.from_pubkey
  pub created_fits : IsArray 32 p.created_starter_id
  pub root_fits : IsArray? 32 p.accepter_root_pubkey

pub record EstablishedFits (p : RelationshipEstablished) : Type 0 where
  pub peer_fits : IsArray 32 p.peer_pubkey
  pub own_fits : IsArray 32 p.own_starter_id
  pub peer_starter_fits : IsArray 32 p.peer_starter_id
  pub id_fits : IsArray 32 p.invitation_id
  pub sender_fits : IsArray 32 p.sender_pubkey
  pub sender_starter_fits : IsArray 32 p.sender_starter_id
  pub peer_root_fits : IsArray? 32 p.peer_root_pubkey
  pub sender_root_fits : IsArray? 32 p.sender_root_pubkey

pub record BrokenFits (p : RelationshipBroken) : Type 0 where
  pub peer_fits : IsArray 32 p.peer_pubkey
  pub own_fits : IsArray 32 p.own_starter_id
  pub root_fits : IsArray? 32 p.peer_root_pubkey

-- What an optional last key adds to a row.
module _ (a b c : Bytes) (ha : IsArray 32 a) (hb : IsArray 32 b) (hc : IsArray 32 c) where
  sent_row :
      (root : Option Bytes)
      → IsArray? 32 root
      → invitation_sent_from_bytes (row a b c (optional_bytes root))
        ≡ ok
            (record { invitation_id = a; starter_id = b; to_pubkey = c; sender_root_pubkey = root })
  unfolding invitation_sent_from_bytes
  sent_row none hr = ground (arith, row_fields a b c [] ha hb hc)
  sent_row (some k) hr =
      ground (arith, row_fields a b c k ha hb hc, read-row-past a b c k ha hb hc 0, read_self k hr)

  accepted_row :
      (root : Option Bytes)
      → IsArray? 32 root
      → invitation_accepted_from_bytes (row a b c (optional_bytes root))
        ≡ ok (record {
          invitation_id = a;
          from_pubkey = b;
          created_starter_id = c;
          accepter_root_pubkey = root;
        })
  unfolding invitation_accepted_from_bytes
  accepted_row none hr = ground (arith, row_fields a b c [] ha hb hc)
  accepted_row (some k) hr =
      ground (arith, row_fields a b c k ha hb hc, read-row-past a b c k ha hb hc 0, read_self k hr)

-- An invitation offer is parsed back from its bytes, with and without the sender's root.
pub invitation_sent-roundtrip :
    (p : InvitationSent)
    → SentFits p
    → invitation_sent_from_bytes (invitation_sent_to_bytes p) ≡ ok p
unfolding invitation_sent_to_bytes
invitation_sent-roundtrip p h = sent_row _ _ _ h.id_fits h.starter_fits h.to_fits _ h.root_fits

-- An acceptance is parsed back from its bytes, with and without the accepter's root.
pub invitation_accepted-roundtrip :
    (p : InvitationAccepted)
    → AcceptedFits p
    → invitation_accepted_from_bytes (invitation_accepted_to_bytes p) ≡ ok p
unfolding invitation_accepted_to_bytes
invitation_accepted-roundtrip p h =
    accepted_row _ _ _ h.id_fits h.from_fits h.created_fits _ h.root_fits

reason_from_u8-to_byte : (r : RejectReason) → reason_from_u8 (reason_to_byte r) ≡ ok r
unfolding reason_from_u8 reason_to_byte
reason_from_u8-to_byte r = ground arith

-- A rejection is parsed back from its bytes, with its reason.
pub invitation_rejected-roundtrip :
    (p : InvitationRejected)
    → IsArray 32 p.invitation_id
    → invitation_rejected_from_bytes (invitation_rejected_to_bytes p) ≡ ok p
unfolding invitation_rejected_from_bytes invitation_rejected_to_bytes
invitation_rejected-roundtrip p h =
    let code = reason_to_byte p.reason ∷ [] in
    ground (
      arith,
      length-append p.invitation_id code,
      read-head p.invitation_id code h,
      get_or-past p.invitation_id code 0 0 h,
      reason_from_u8-to_byte p.reason,
    )

-- A starter's creation is parsed back from its bytes, with its kind and network byte.
pub starter_created-roundtrip :
    (p : StarterCreated)
    → IsArray 32 p.starter_id
    → IsArray 32 p.nonce
    → starter_created_from_bytes (starter_created_to_bytes p) ≡ ok p
unfolding starter_created_from_bytes starter_created_to_bytes
starter_created-roundtrip p h hn =
    let codes = kind_to_byte p.kind ∷ p.network ∷ [] in
    let tail = p.nonce ++ codes in
    ground (
      arith,
      length-append p.starter_id tail,
      length-append p.nonce codes,
      read-head p.starter_id tail h,
      read-past p.starter_id tail 0 h,
      read-head p.nonce codes hn,
      get_or-past p.starter_id tail 32 0 h,
      get_or-past p.nonce codes 0 0 hn,
      get_or-past p.starter_id tail 33 0 h,
      get_or-past p.nonce codes 1 0 hn,
      kind_from_u8-to_byte p.kind,
    )

-- A starter's burn is parsed back from its bytes, with its reason.
pub starter_burned-roundtrip :
    (p : StarterBurned)
    → IsArray 32 p.starter_id
    → starter_burned_from_bytes (starter_burned_to_bytes p) ≡ ok p
unfolding starter_burned_from_bytes starter_burned_to_bytes
starter_burned-roundtrip p h =
    let code = p.reason ∷ [] in
    ground (
      arith,
      length-append p.starter_id code,
      read-head p.starter_id code h,
      get_or-past p.starter_id code 0 0 h,
    )

-- The end of a relationship is parsed back from its bytes, with and without the peer's root.
pub relationship_broken-roundtrip :
    (p : RelationshipBroken)
    → BrokenFits p
    → relationship_broken_from_bytes (relationship_broken_to_bytes p) ≡ ok p
unfolding relationship_broken_to_bytes relationship_broken_from_bytes
relationship_broken-roundtrip p h = broken_row _ _ h.peer_fits h.own_fits _ h.root_fits
  where
    broken_row :
        (a b : Bytes)
        → IsArray 32 a
        → IsArray 32 b
        → (root : Option Bytes) → IsArray? 32 root
        → relationship_broken_from_bytes (a ++ (b ++ optional_bytes root))
          ≡ ok (record { peer_pubkey = a; own_starter_id = b; peer_root_pubkey = root })
    broken_row a b ha hb none hr = ground (
      arith,
      length-append a (b ++ []),
      length-append b [],
      read-head a (b ++ []) ha,
      read-past a (b ++ []) 0 ha,
      read-head b [] hb,
    )
    broken_row a b ha hb (some k) hr = ground (
      arith,
      length-append a (b ++ k),
      length-append b k,
      read-head a (b ++ k) ha,
      read-past a (b ++ k) 0 ha,
      read-past a (b ++ k) 32 ha,
      read-past b k 0 hb,
      read-head b k hb,
      read_self k hr,
    )
