-- ===== src/Relationships/Apart.antt =====
-- The keys of the projected relationships: peer and own starter.
use hivra_app.Prelude.{
  ◌≡◌, ap, sym, ◌∙◌, true, false, ◌&&◌, List, [], ◌∷◌, arith, All, Pairwise, Bool-cases, inl, inr,
  eq_of_same,
}
use hivra_app.Primitives.{Bytes-discrete, bytes_eq, PubKey, StarterId}
use hivra_app.Relationships.Projection.{ProjectedRelationship, same_key, put, break_first}

-- `b` has another key than `a`.
abbrev pub Apart : ProjectedRelationship → ProjectedRelationship → Type 0
Apart a b = same_key b.peer_pubkey b.own_starter_id a ≡ false

same_key_eq :
    (peer : PubKey) (starter : StarterId) (r : ProjectedRelationship)
    → same_key peer starter r ≡ true
    → (r.peer_pubkey ≡ peer) × (r.own_starter_id ≡ starter)
same_key_eq peer starter r h = (
  eq_of_same Bytes-discrete r.peer_pubkey peer (ground arith),
  eq_of_same Bytes-discrete r.own_starter_id starter (ground arith),
)

-- Entries that are apart from one are apart from another with its key.
Apart-same_key :
    (a r : ProjectedRelationship) (rs : List ProjectedRelationship)
    → same_key r.peer_pubkey r.own_starter_id a ≡ true
    → All (Apart a) rs
    → All (Apart r) rs
Apart-same_key a r [] h k = tt
Apart-same_key a r (b ∷ rs) h (apart, k) =
    let (same_peer, same_starter) = same_key_eq r.peer_pubkey r.own_starter_id a h in
    (
      sym (
            ap (λ q. bytes_eq q b.peer_pubkey && bytes_eq a.own_starter_id b.own_starter_id)
              same_peer
            ∙ ap (λ s. bytes_eq r.peer_pubkey b.peer_pubkey && bytes_eq s b.own_starter_id)
                same_starter)
          ∙ apart,
      Apart-same_key a r rs h k,
    )

pub All-put :
    (P : ProjectedRelationship → Type 0) (r : ProjectedRelationship)
    (rs : List ProjectedRelationship)
    → P r
    → All P rs
    → All P (put r rs)
unfolding put
All-put P r [] h k = (h, tt)
All-put P r (a ∷ rs) h (now, later) =
    elim (Bool-cases (same_key r.peer_pubkey r.own_starter_id a)) [
      | inl hit ↦ rw hit (h, later)
      | inr miss ↦ rw miss (now, All-put P r rs h later)
    ]

pub put-Apart :
    (r : ProjectedRelationship) (rs : List ProjectedRelationship)
    → Pairwise Apart rs
    → Pairwise Apart (put r rs)
unfolding put
put-Apart r [] k = (tt, tt)
put-Apart r (a ∷ rs) (apart, k) = elim (Bool-cases (same_key r.peer_pubkey r.own_starter_id a)) [
  | inl hit ↦ rw hit (Apart-same_key a r rs hit apart, k)
  | inr miss ↦ rw miss (All-put (Apart a) r rs miss apart, put-Apart r rs k)
]

module _ (peer : PubKey) (starter : StarterId) (f : ProjectedRelationship → ProjectedRelationship)
    (keeps_peer : (r : ProjectedRelationship) → (f r).peer_pubkey ≡ r.peer_pubkey)
    (keeps_starter : (r : ProjectedRelationship) → (f r).own_starter_id ≡ r.own_starter_id) where
  pub All-break_first :
      (P : ProjectedRelationship → Type 0) (rs : List ProjectedRelationship)
      → ((r : ProjectedRelationship) → P r → P (f r))
      → All P rs
      → All P (break_first peer starter f rs)
  unfolding break_first
  All-break_first P [] step h = tt
  All-break_first P (a ∷ rs) step (now, later) = elim (Bool-cases (same_key peer starter a)) [
    | inl hit ↦ rw hit (step a now, later)
    | inr miss ↦ rw miss (now, All-break_first P rs step later)
  ]

  kept_key :
      (q : PubKey) (s : StarterId) (r : ProjectedRelationship) → same_key q s (f r) ≡ same_key q s r
  kept_key q s r =
      ap (λ x. bytes_eq x q && bytes_eq (f r).own_starter_id s) (keeps_peer r)
      ∙ ap (λ x. bytes_eq r.peer_pubkey q && bytes_eq x s) (keeps_starter r)

  All-Apart_kept :
      (a : ProjectedRelationship) (rs : List ProjectedRelationship)
      → All (Apart a) rs
      → All (Apart (f a)) rs
  All-Apart_kept a [] h = tt
  All-Apart_kept a (b ∷ rs) (now, later) =
      (kept_key b.peer_pubkey b.own_starter_id a ∙ now, All-Apart_kept a rs later)

  pub break_first-Apart :
      (rs : List ProjectedRelationship)
      → Pairwise Apart rs
      → Pairwise Apart (break_first peer starter f rs)
  unfolding break_first
  break_first-Apart [] h = tt
  break_first-Apart (a ∷ rs) (apart, h) = elim (Bool-cases (same_key peer starter a)) [
    | inl hit ↦ rw hit (All-Apart_kept a rs apart, h)
    | inr miss ↦
        rw miss (All-break_first (Apart a) rs (λ r k. still a r k) apart, break_first-Apart rs h)
  ]
    where
      still : (a r : ProjectedRelationship) → Apart a r → Apart a (f r)
      still a r k =
          ap (λ x. bytes_eq a.peer_pubkey x && bytes_eq a.own_starter_id (f r).own_starter_id)
            (keeps_peer r)
          ∙ ap (λ x. bytes_eq a.peer_pubkey r.peer_pubkey && bytes_eq a.own_starter_id x)
              (keeps_starter r)
          ∙ k
