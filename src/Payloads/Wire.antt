-- ===== src/Payloads/Wire.antt =====
-- The other direction: what a parsed payload says of the bytes it came from.
use hivra_app.Prelude.{
  ℕ, zero, suc, ◌≡◌, ◌⊎◌, ◌≤◌, ◌+◌, refl, ap, sym, ◌∷◌, [], ◌++◌, arith, ok, length, take, drop,
  leb, if◌then◌else◌, length-drop, length-take_of_le,
}
use hivra_app.Primitives.{Bytes, IsArray}
use hivra_app.Payloads.{
  read_fixed_32, InvitationSent, invitation_sent_to_bytes, invitation_sent_from_bytes,
  InvitationAccepted, invitation_accepted_to_bytes, invitation_accepted_from_bytes, read_if,
}
use hivra_app.Payloads.RoundTrip.{SentFits, AcceptedFits}
use hivra_app.Payloads.Slices.{row}
use mathlib.Core.List.{append_assoc, append-nil}

take-add : (m n : ℕ) (bs : Bytes) → take (m + n) bs ≡ take m bs ++ take n (drop m bs)
take-add zero n bs = let e : 0 + n ≡ n = omega arith in rw e
take-add (suc m) zero [] = let e : suc m + 0 ≡ suc m = omega arith in rw e
take-add (suc m) (suc n) [] = let e : suc m + suc n ≡ suc (m + suc n) = omega arith in rw e
take-add (suc m) n (x ∷ bs) =
    let e : suc m + n ≡ suc (m + n) = omega arith in rw e (ap (◌∷◌ x) (take-add m n bs))

take_all : (n : ℕ) (bs : Bytes) → length bs ≤ n → take n bs ≡ bs
take_all zero [] h = refl
take_all zero (x ∷ bs) h = absurd (omega arith)
take_all (suc n) [] h = refl
take_all (suc n) (x ∷ bs) h = ap (◌∷◌ x) (take_all n bs (omega arith))

-- A slice in range has 32 bytes: the parser does not panic there.
pub read_fixed_32-IsArray :
    (bs : Bytes) (s : ℕ) → s + 32 ≤ length bs → IsArray 32 (read_fixed_32 bs s)
unfolding read_fixed_32
read_fixed_32-IsArray bs s h = length-take_of_le 32 (drop s bs) (omega (arith, length-drop s bs))

-- Consecutive slices make up a prefix of the bytes.
row-read :
    (bs r : Bytes)
    → row (read_fixed_32 bs 0) (read_fixed_32 bs 32) (read_fixed_32 bs 64) r ≡ take 96 bs ++ r
unfolding read_fixed_32
row-read bs r = ground (
  arith,
  take-add 32 64 bs,
  take-add 64 32 bs,
  take-add 32 32 bs,
  append_assoc (take 32 bs) (take 32 (drop 32 bs)) (take 32 (drop 64 bs) ++ r),
  append_assoc (take 64 bs) (take 32 (drop 64 bs)) r,
  append_assoc (take 32 bs) (take 32 (drop 32 bs)) (take 32 (drop 64 bs)),
)

read-is-take : (bs : Bytes) → take 96 bs ++ read_fixed_32 bs 96 ≡ take 128 bs
unfolding read_fixed_32
read-is-take bs = sym (take-add 96 32 bs)

-- The lengths of an offer on the wire: bare, with the sender's root, and with a kind, a transport
-- key and a signature behind these.
abbrev pub IsSentLength : ℕ → Type 0
IsSentLength n = (n ≡ 96) ⊎ ((n ≡ 97) ⊎ ((n ≡ 128) ⊎ ((n ≡ 129) ⊎ ((n ≡ 161) ⊎ (n ≡ 225)))))

sent_parsed :
    (bs : Bytes) (p : InvitationSent)
    → invitation_sent_from_bytes bs ≡ ok p
    → IsSentLength (length bs)
      × (p ≡ record {
        invitation_id = read_fixed_32 bs 0;
        starter_id = read_fixed_32 bs 32;
        to_pubkey = read_fixed_32 bs 64;
        sender_root_pubkey = read_if (leb 128 (length bs)) bs 96;
      })
unfolding invitation_sent_from_bytes
sent_parsed bs p e = ground arith

-- An offer that parses has one of six lengths, its arrays have 32 bytes, and serialising it gives
-- the first 96 bytes back, or the first 128 where there are as many: what follows them (kind,
-- transport key, signature) is read past.
pub invitation_sent-reencode :
    (bs : Bytes) (p : InvitationSent)
    → invitation_sent_from_bytes bs ≡ ok p
    → IsSentLength (length bs)
      × SentFits p
      × (invitation_sent_to_bytes p ≡ take (if leb 128 (length bs) then 128 else 96) bs)
unfolding invitation_sent_to_bytes
invitation_sent-reencode bs p e = ground (
  arith,
  sent_parsed bs p e,
  read_fixed_32-IsArray bs 0,
  read_fixed_32-IsArray bs 32,
  read_fixed_32-IsArray bs 64,
  read_fixed_32-IsArray bs 96,
  row-read bs [],
  row-read bs (read_fixed_32 bs 96),
  read-is-take bs,
  append-nil (take 96 bs),
)

accepted_parsed :
    (bs : Bytes) (p : InvitationAccepted)
    → invitation_accepted_from_bytes bs ≡ ok p
    → ((length bs ≡ 96) ⊎ (length bs ≡ 128))
      × (p ≡ record {
        invitation_id = read_fixed_32 bs 0;
        from_pubkey = read_fixed_32 bs 32;
        created_starter_id = read_fixed_32 bs 64;
        accepter_root_pubkey = read_if (leb 128 (length bs)) bs 96;
      })
unfolding invitation_accepted_from_bytes
accepted_parsed bs p e = ground arith

-- An acceptance parses only from 96 or 128 bytes, its arrays have 32 bytes, and serialising it
-- gives exactly the same bytes back.
pub invitation_accepted-reencode :
    (bs : Bytes) (p : InvitationAccepted)
    → invitation_accepted_from_bytes bs ≡ ok p
    → AcceptedFits p × (invitation_accepted_to_bytes p ≡ bs)
unfolding invitation_accepted_to_bytes
invitation_accepted-reencode bs p e = ground (
  arith,
  accepted_parsed bs p e,
  read_fixed_32-IsArray bs 0,
  read_fixed_32-IsArray bs 32,
  read_fixed_32-IsArray bs 64,
  read_fixed_32-IsArray bs 96,
  row-read bs [],
  row-read bs (read_fixed_32 bs 96),
  read-is-take bs,
  append-nil (take 96 bs),
  take_all 96 bs,
  take_all 128 bs,
)
