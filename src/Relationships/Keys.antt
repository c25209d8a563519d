-- ===== src/Relationships/Keys.antt =====
-- A collection of relationships as a set of peers and own starters.
use hivra_app.Prelude.{
  ℕ, zero, suc, ◌+◌, ◌≡◌, refl, ap, ◌∙◌, sym, subst, Bool, true, false, not, ◌||◌, Option, none,
  some, [], ◌∷◌, ◌++◌, arith, any, All, Pairwise, Pairwise-append_one, Bool-cases, inl, inr,
  get_elem?, position, retain, length, any-append, eq_of_same, same_refl,
}
use hivra_app.Primitives.{Bytes-discrete, PubKey, StarterId}
use hivra_app.Relationships.{
  Relationship, Relationships, is_with_peer, involves_starter, is_keyed, exists, add, remove_at,
  remove, split_off, remove_all_for_starter, take_out,
}

abbrev pub Clash : Relationship → Relationship → Type 0
Clash a b = is_keyed b.peer b.own_starter_id a ≡ false

-- No two entries have the same peer and own starter.
abbrev pub IsKeyed : Relationships → Type 0
IsKeyed = Pairwise Clash

none_of_any :
    (p : Relationship → Bool) (rs : Relationships) → any p rs ≡ false → All (λ r. p r ≡ false) rs
unfolding any
none_of_any p [] h = tt
none_of_any p (r ∷ rs) h = (ground arith, none_of_any p rs (ground arith))

keyed_eq :
    (peer : PubKey) (starter : StarterId) (r : Relationship)
    → is_keyed peer starter r ≡ true
    → (r.peer ≡ peer) × (r.own_starter_id ≡ starter)
unfolding is_keyed is_with_peer
keyed_eq peer starter r h = (
  eq_of_same Bytes-discrete r.peer peer (ground arith),
  eq_of_same Bytes-discrete r.own_starter_id starter (ground arith),
)

keyed_self : (r : Relationship) → is_keyed r.peer r.own_starter_id r ≡ true
unfolding is_keyed is_with_peer
keyed_self r =
    ground (arith, same_refl Bytes-discrete r.peer, same_refl Bytes-discrete r.own_starter_id)

keyed_there :
    (rs : Relationships) (r : Relationship) (peer : PubKey) (starter : StarterId)
    → exists rs r.peer r.own_starter_id ≡ true
    → exists rs peer starter ≡ (exists rs peer starter || is_keyed peer starter r)
keyed_there rs r peer starter there = elim (Bool-cases (is_keyed peer starter r)) [
  | inr other ↦ ground arith
  | inl this ↦
      let (same_peer, same_starter) = keyed_eq peer starter r this in
      let found : exists rs peer starter ≡ true =
        subst (λ s. exists rs peer s ≡ true) same_starter
          (subst (λ q. exists rs q r.own_starter_id ≡ true) same_peer there) in
      ground arith
]

-- `add` keeps the keys different; afterwards the key is there, the other keys are as before, and
-- the answer says whether the entry is new, which is then the last one.
pub add-IsKeyed :
    (rs : Relationships) (r : Relationship)
    → IsKeyed rs
    → (IsKeyed (add rs r).1)
      × ((add rs r).0 ≡ not (exists rs r.peer r.own_starter_id))
      × ((peer : PubKey) (starter : StarterId)
          → exists (add rs r).1 peer starter ≡ (exists rs peer starter || is_keyed peer starter r))
      × ((add rs r).0 ≡ true → (add rs r).1 ≡ rs ++ (r ∷ []))
unfolding add exists any
add-IsKeyed rs r h = elim (Bool-cases (any (is_keyed r.peer r.own_starter_id) rs)) [
  | inl there ↦ rw there (h, refl, (λ peer starter. keyed_there rs r peer starter there), λ e. cc)
  | inr new ↦ rw new (
    Pairwise-append_one Clash rs r h (none_of_any (is_keyed r.peer r.own_starter_id) rs new),
    refl,
    (λ peer starter. any-append (is_keyed peer starter) rs (r ∷ []) ∙ ground arith),
    λ _. refl,
  )
]

-- No later entry has the key of a found one.
rest_not_keyed :
    (peer : PubKey) (starter : StarterId) (r : Relationship) (rs : Relationships)
    → is_keyed peer starter r ≡ true
    → All (Clash r) rs
    → any (is_keyed peer starter) rs ≡ false
unfolding any
rest_not_keyed peer starter r [] h clashes = refl
rest_not_keyed peer starter r (x ∷ rs) h (clash, clashes) =
    elim (Bool-cases (is_keyed peer starter x)) [
      | inr other ↦ ground (arith, rest_not_keyed peer starter r rs h clashes)
      | inl this ↦
          let (same_peer, same_starter) = keyed_eq peer starter x this in
          absurd (
            true_false (
              sym h
              ∙ sym (ap (λ q. is_keyed q starter r) same_peer)
              ∙ sym (ap (λ s. is_keyed x.peer s r) same_starter)
              ∙ clash))
    ]
  where
    true_false : true ≡ false → ⊥
    true_false e = cc

All-remove_at :
    (P : Relationship → Type 0) (rs : Relationships) (i : ℕ) → All P rs → All P (remove_at rs i)
unfolding remove_at
All-remove_at P [] i h = tt
All-remove_at P (r ∷ rs) zero h = h.1
All-remove_at P (r ∷ rs) (suc i) h = (h.0, All-remove_at P rs i h.1)

IsKeyed-remove_at : (rs : Relationships) (i : ℕ) → IsKeyed rs → IsKeyed (remove_at rs i)
unfolding remove_at
IsKeyed-remove_at [] i h = tt
IsKeyed-remove_at (r ∷ rs) zero h = h.1
IsKeyed-remove_at (r ∷ rs) (suc i) h =
    (All-remove_at (Clash r) rs i h.0, IsKeyed-remove_at rs i h.1)

removed_at :
    (peer : PubKey) (starter : StarterId) (rs : Relationships) (i : ℕ)
    → IsKeyed rs
    → position (is_keyed peer starter) rs ≡ some i
    → (r : Relationship) × (get_elem? rs i ≡ some r)
      × (is_keyed peer starter r ≡ true)
      × (any (is_keyed peer starter) (remove_at rs i) ≡ false)
      × (length rs ≡ suc (length (remove_at rs i)))
unfolding position remove_at any
removed_at peer starter [] i h e = ground arith
removed_at peer starter (x ∷ rs) zero h e =
    let this : is_keyed peer starter x ≡ true = ground arith in
    (x, refl, this, rest_not_keyed peer starter x rs this h.0, refl)
removed_at peer starter (x ∷ rs) (suc i) h e =
    let (r, at, keyed, gone, shorter) = removed_at peer starter rs i h.1 (ground arith) in
    (r, at, keyed, ground arith, ground arith)

not_there : (p : Relationship → Bool) (rs : Relationships) → position p rs ≡ none → any p rs ≡ false
unfolding any position
not_there p [] e = refl
not_there p (r ∷ rs) e = ground (arith, not_there p rs)

-- What `remove` answers and leaves.
abbrev pub Removes :
    Relationships → PubKey → StarterId → Option Relationship → Relationships → Type 0
Removes rs peer starter none rest = (exists rs peer starter ≡ false) × (rest ≡ rs)
Removes rs peer starter (some r) rest =
    (is_keyed peer starter r ≡ true) × (length rs ≡ suc (length rest))

-- `remove` keeps the keys different and leaves no entry with the key; it answers with the entry,
-- taken out alone, or with none if there was no such entry, and then changes nothing.
pub remove-Removes :
    (rs : Relationships) (peer : PubKey) (starter : StarterId)
    → IsKeyed rs
    → let (answer, rest) = remove rs peer starter in
      IsKeyed rest × (exists rest peer starter ≡ false) × Removes rs peer starter answer rest
unfolding remove exists
remove-Removes rs peer starter h = taken (position (is_keyed peer starter) rs) refl
  where
    taken :
        (found : Option ℕ)
        → position (is_keyed peer starter) rs ≡ found
        → let (answer, rest) = take_out rs found in
          IsKeyed rest × (exists rest peer starter ≡ false) × Removes rs peer starter answer rest
    taken none e = let gone = not_there (is_keyed peer starter) rs e in (h, gone, (gone, refl))
    taken (some i) e =
        let (r, at, keyed, gone, shorter) = removed_at peer starter rs i h e in
        (
          IsKeyed-remove_at rs i h,
          gone,
          subst (λ o. Removes rs peer starter o (remove_at rs i)) (sym at) (keyed, shorter),
        )

All-retain :
    (p : Relationship → Bool) (P : Relationship → Type 0) (rs : Relationships)
    → All P rs
    → All P (retain p rs)
unfolding retain
All-retain p P [] h = tt
All-retain p P (r ∷ rs) h = elim (Bool-cases (p r)) [
  | inl kept ↦ rw kept (h.0, All-retain p P rs h.1)
  | inr gone ↦ rw gone (All-retain p P rs h.1)
]

retain-All : (p : Relationship → Bool) (rs : Relationships) → All (λ r. p r ≡ true) (retain p rs)
unfolding retain
retain-All p [] = tt
retain-All p (r ∷ rs) = elim (Bool-cases (p r)) [
  | inl kept ↦ rw kept (kept, retain-All p rs)
  | inr gone ↦ rw gone (retain-All p rs)
]

IsKeyed-retain : (p : Relationship → Bool) (rs : Relationships) → IsKeyed rs → IsKeyed (retain p rs)
unfolding retain
IsKeyed-retain p [] h = tt
IsKeyed-retain p (r ∷ rs) h = elim (Bool-cases (p r)) [
  | inl kept ↦ rw kept (All-retain p (Clash r) rs h.0, IsKeyed-retain p rs h.1)
  | inr gone ↦ rw gone (IsKeyed-retain p rs h.1)
]

retain_count :
    (p : Relationship → Bool) (rs : Relationships)
    → length rs ≡ length (retain p rs) + length (retain (λ r. not (p r)) rs)
unfolding retain
retain_count p [] = refl
retain_count p (r ∷ rs) = elim (Bool-cases (p r)) [
  | inl kept ↦ rw kept (omega (arith, retain_count p rs))
  | inr gone ↦ rw gone (omega (arith, retain_count p rs))
]

-- When a starter is burned, exactly the relationships that involve it, as the own or as the
-- peer's starter, are removed: all that are answered involve it, none that is left does, none is
-- lost, and the keys stay different.
pub remove_all_for_starter_lem :
    (rs : Relationships) (starter : StarterId)
    → IsKeyed rs
    → let (removed, rest) = remove_all_for_starter rs starter in
      All (λ r. involves_starter r starter ≡ true) removed
      × All (λ r. not (involves_starter r starter) ≡ true) rest
      × (length rs ≡ length removed + length rest)
      × IsKeyed rest
unfolding remove_all_for_starter split_off
remove_all_for_starter_lem rs starter h = (
  retain-All (λ r. involves_starter r starter) rs,
  retain-All (λ r. not (involves_starter r starter)) rs,
  retain_count (λ r. involves_starter r starter) rs,
  IsKeyed-retain (λ r. not (involves_starter r starter)) rs h,
)
