-- ===== src/Payloads/Established.antt =====
-- The payload of an established relationship: what comes back from its bytes.
use hivra_app.Prelude.{
  ℕ, ◌≡◌, ◌+◌, refl, get_or, Option, none, some, ◌∷◌, [], ◌++◌, arith, ok, length, length-append,
}
use hivra_app.Primitives.{Bytes, IsArray, IsArray?, kind_to_byte}
use hivra_app.Primitives.Codes.{kind_from_u8-to_byte}
use hivra_app.Payloads.{
  read_fixed_32, RelationshipEstablished, relationship_established_to_bytes,
  relationship_established_from_bytes, root_bytes,
}
use hivra_app.Payloads.Slices.{
  read-head, read_self, read-past, get_or-past, row, row_fields, read-row-past, get_or-row-past,
  read-cons, get_or-cons,
}
use hivra_app.Payloads.RoundTrip.{EstablishedFits}

-- The sender's root as the encoding keeps it: it is lost where the peer's root is absent.
abbrev pub kept_sender_root : Option Bytes → Option Bytes → Option Bytes
kept_sender_root none sender_root = none
kept_sender_root (some _) sender_root = sender_root

-- The part behind the first three fields.
abbrev tail_of : ℕ → Bytes → Bytes → ℕ → Bytes → Bytes → Bytes
tail_of k i s t d roots = k ∷ (i ++ (s ++ (t ∷ (d ++ roots))))

module _ (k t : ℕ) (i s d : Bytes) (hi : IsArray 32 i) (hs : IsArray 32 s) (hd : IsArray 32 d) where
  module _ (roots : Bytes) where
    abbrev after_i : Bytes
    after_i = s ++ (t ∷ (d ++ roots))

    read-tail-past :
        (n : ℕ) → read_fixed_32 (tail_of k i s t d roots) (98 + n) ≡ read_fixed_32 roots n
    read-tail-past n = ground (
      arith,
      read-cons k (i ++ after_i) (97 + n),
      read-past i after_i (65 + n) hi,
      read-past s (t ∷ (d ++ roots)) (33 + n) hs,
      read-cons t (d ++ roots) (32 + n),
      read-past d roots n hd,
    )

    tail_fields :
        (length (tail_of k i s t d roots) ≡ 98 + length roots)
        × (read_fixed_32 (tail_of k i s t d roots) 1 ≡ i)
        × (read_fixed_32 (tail_of k i s t d roots) 33 ≡ s)
        × (read_fixed_32 (tail_of k i s t d roots) 66 ≡ d)
        × (get_or (tail_of k i s t d roots) 0 0 ≡ k)
        × (get_or (tail_of k i s t d roots) 65 0 ≡ t)
    tail_fields = (
      ground (
        arith,
        length-append i after_i,
        length-append s (t ∷ (d ++ roots)),
        length-append d roots,
      ),
      ground (arith, read-cons k (i ++ after_i) 0, read-head i after_i hi),
      ground (
        arith,
        read-cons k (i ++ after_i) 32,
        read-past i after_i 0 hi,
        read-head s (t ∷ (d ++ roots)) hs,
      ),
      ground (
        arith,
        read-cons k (i ++ after_i) 65,
        read-past i after_i 33 hi,
        read-past s (t ∷ (d ++ roots)) 1 hs,
        read-cons t (d ++ roots) 0,
        read-head d roots hd,
      ),
      refl,
      ground (
        arith,
        get_or-cons k (i ++ after_i) 64 0,
        get_or-past i after_i 32 0 hi,
        get_or-past s (t ∷ (d ++ roots)) 0 0 hs,
      ),
    )

-- The roots at the end of the bytes: none, the peer's, or the peer's and the sender's.
module _ (p : RelationshipEstablished) (h : EstablishedFits p) where
  abbrev with_roots : Option Bytes → Option Bytes → RelationshipEstablished
  with_roots peer sender = record p { peer_root_pubkey = peer; sender_root_pubkey = sender }

  abbrev tail_with : Bytes → Bytes
  tail_with =
      tail_of (kind_to_byte p.kind) p.invitation_id p.sender_pubkey
        (kind_to_byte p.sender_starter_type) p.sender_starter_id

  -- What the parser reads off bytes that end in `roots`.
  parse_tail :
      (roots : Bytes)
      → let bytes = row p.peer_pubkey p.own_starter_id p.peer_starter_id (tail_with roots) in
        (length bytes ≡ 194 + length roots)
        × (get_or bytes 96 0 ≡ kind_to_byte p.kind)
        × (get_or bytes 161 0 ≡ kind_to_byte p.sender_starter_type)
        × (read_fixed_32 bytes 97 ≡ p.invitation_id)
        × (read_fixed_32 bytes 129 ≡ p.sender_pubkey)
        × (read_fixed_32 bytes 162 ≡ p.sender_starter_id)
        × (read_fixed_32 bytes 194 ≡ read_fixed_32 roots 0)
        × (read_fixed_32 bytes 226 ≡ read_fixed_32 roots 32)
  parse_tail roots = ground (
    arith,
    row_fields _ _ _ (tail_with roots) h.peer_fits h.own_fits h.peer_starter_fits,
    tail_fields (kind_to_byte p.kind) (kind_to_byte p.sender_starter_type) _ _ _ h.id_fits
        h.sender_fits h.sender_starter_fits roots,
    get_or-row-past _ _ _ (tail_with roots) h.peer_fits h.own_fits h.peer_starter_fits 0 0,
    get_or-row-past _ _ _ (tail_with roots) h.peer_fits h.own_fits h.peer_starter_fits 65 0,
    past 1,
    past 33,
    past 66,
    past 98,
    past 130,
    tail_past 0,
    tail_past 32,
  )
    where
      past :
          (n : ℕ)
          → read_fixed_32
              (row p.peer_pubkey p.own_starter_id p.peer_starter_id (tail_with roots))
              (96 + n)
            ≡ read_fixed_32 (tail_with roots) n
      past = read-row-past _ _ _ (tail_with roots) h.peer_fits h.own_fits h.peer_starter_fits

      tail_past : (n : ℕ) → read_fixed_32 (tail_with roots) (98 + n) ≡ read_fixed_32 roots n
      tail_past =
          read-tail-past (kind_to_byte p.kind) (kind_to_byte p.sender_starter_type) _ _ _ h.id_fits
            h.sender_fits h.sender_starter_fits roots

  parse_with :
      (peer sender : Option Bytes)
      → IsArray? 32 peer
      → IsArray? 32 sender
      → relationship_established_from_bytes (
          row p.peer_pubkey p.own_starter_id p.peer_starter_id (tail_with (root_bytes peer sender)))
        ≡ ok (with_roots peer (kept_sender_root peer sender))
  unfolding relationship_established_from_bytes
  parse_with none sender hp hq = ground (
    arith,
    parse_tail [],
    row_fields _ _ _ (tail_with []) h.peer_fits h.own_fits h.peer_starter_fits,
    kind_from_u8-to_byte p.kind,
    kind_from_u8-to_byte p.sender_starter_type,
  )
  parse_with (some k) none hp hq = ground (
    arith,
    parse_tail (k ++ []),
    length-append k [],
    row_fields _ _ _ (tail_with (k ++ [])) h.peer_fits h.own_fits h.peer_starter_fits,
    kind_from_u8-to_byte p.kind,
    kind_from_u8-to_byte p.sender_starter_type,
    read-head k [] hp,
  )
  parse_with (some k) (some l) hp hq = ground (
    arith,
    parse_tail (k ++ l),
    length-append k l,
    row_fields _ _ _ (tail_with (k ++ l)) h.peer_fits h.own_fits h.peer_starter_fits,
    kind_from_u8-to_byte p.kind,
    kind_from_u8-to_byte p.sender_starter_type,
    read-head k l hp,
    read-past k l 0 hp,
    read_self l hq,
  )

-- An established relationship is parsed back from its bytes, but for the sender's root, which
-- comes back only where the peer's root is there too.
pub relationship_established-roundtrip :
    (p : RelationshipEstablished)
    → EstablishedFits p
    → relationship_established_from_bytes (relationship_established_to_bytes p)
      ≡ ok (record p {
        sender_root_pubkey = kept_sender_root p.peer_root_pubkey p.sender_root_pubkey;
      })
unfolding relationship_established_to_bytes
relationship_established-roundtrip p h =
    parse_with p h p.peer_root_pubkey p.sender_root_pubkey h.peer_root_fits h.sender_root_fits
