-- ===== src/Quarantine/Senders.antt =====
-- The search for the policy of a sender, and how one is added for a new sender.
use hivra_app.Prelude.{
  ℕ, zero, suc, ltb, Option-cases, same_refl, subst, ◌++◌, none, find, length, ◌≡◌, refl, ap, ◌∙◌,
  Bool, true, some, List, [], ◌∷◌, ok, arith, map, position, get_elem?, Bool-cases, inl, inr,
}
use mathlib.Core.Option
use hivra_app.Primitives.{Bytes, Bytes-discrete, bytes_eq}
use hivra_app.Quarantine.{SenderPolicy, Scope, max_policy_senders, Snapshot}
use hivra_app.Quarantine.Policies.{
  update_at, remove_at, make_sender_policy_capacity, new_policy, least_active, find_or_add_policy,
}
use hivra_app.Quarantine.Steps.{bind_ok}

abbrev pub is_of : Bytes → SenderPolicy → Bool
is_of sender policy = bytes_eq policy.authenticated_sender sender

-- The searches for a policy of the sender.
module _ (sender : Bytes) where
  pub find-map :
      (f : SenderPolicy → SenderPolicy) (policies : List SenderPolicy)
      → ((p : SenderPolicy) → is_of sender (f p) ≡ is_of sender p)
      → find (is_of sender) (map f policies) ≡ Option.map f (find (is_of sender) policies)
  unfolding find
  find-map f [] keeps = refl
  find-map f (p ∷ policies) keeps = elim (Bool-cases (is_of sender p)) [
    | inl hit ↦ rw (keeps p, hit) refl
    | inr miss ↦ rw (keeps p, miss) (find-map f policies keeps)
  ]

  pub find-position :
      (policies : List SenderPolicy) (i : ℕ)
      → position (is_of sender) policies ≡ some i
      → find (is_of sender) policies ≡ get_elem? policies i
  unfolding find position
  find-position [] i h = ground arith
  find-position (p ∷ policies) zero h = ground arith
  find-position (p ∷ policies) (suc i) h = ground (arith, find-position policies i)

  get_elem?-position :
      (policies : List SenderPolicy) (i : ℕ)
      → position (is_of sender) policies ≡ some i
      → (p : SenderPolicy) × (get_elem? policies i ≡ some p)
  unfolding position
  get_elem?-position [] i h = absurd (ground arith)
  get_elem?-position (p ∷ policies) zero h = (p, refl)
  get_elem?-position (p ∷ policies) (suc i) h = get_elem?-position policies i (ground arith)

  pub find-update_at :
      (f : SenderPolicy → SenderPolicy) (policies : List SenderPolicy) (i : ℕ) (p : SenderPolicy)
      → ((q : SenderPolicy) → is_of sender (f q) ≡ is_of sender q)
      → position (is_of sender) policies ≡ some i
      → get_elem? policies i ≡ some p
      → find (is_of sender) (update_at f i policies) ≡ some (f p)
  unfolding find position
  find-update_at f [] i p keeps stands at = ground arith
  find-update_at f (x ∷ policies) zero p keeps stands at =
      ground (arith, keeps x, ap (Option.map f) at)
  find-update_at f (x ∷ policies) (suc i) p keeps stands at =
      ground (arith, keeps x, find-update_at f policies i p keeps)

  pub find-none :
      (policies : List SenderPolicy)
      → position (is_of sender) policies ≡ none
      → find (is_of sender) policies ≡ none
  unfolding find position
  find-none [] h = refl
  find-none (p ∷ policies) h = ground (arith, find-none policies)

  pub position-remove_at :
      (policies : List SenderPolicy) (i : ℕ)
      → position (is_of sender) policies ≡ none
      → position (is_of sender) (remove_at i policies) ≡ none
  unfolding position
  position-remove_at [] i h = refl
  position-remove_at (p ∷ policies) zero h = ground arith
  position-remove_at (p ∷ policies) (suc i) h = ground (arith, position-remove_at policies i)

  pub position-append_one :
      (policies : List SenderPolicy) (p : SenderPolicy)
      → position (is_of sender) policies ≡ none
      → is_of sender p ≡ true
      → (position (is_of sender) (policies ++ (p ∷ [])) ≡ some (length policies))
        × (get_elem? (policies ++ (p ∷ [])) (length policies) ≡ some p)
  unfolding position
  position-append_one [] p h k = (rw k refl, refl)
  position-append_one (x ∷ policies) p h k =
      let (there, at) = position-append_one policies p (ground arith) k in (ground arith, at)

  -- A policy of another sender may be removed; the sender's own one is added at the end.
  pub position-make_sender_policy_capacity :
      (s t : Snapshot)
      → make_sender_policy_capacity s ≡ ok t
      → position (is_of sender) s.sender_policies ≡ none
      → position (is_of sender) t.sender_policies ≡ none
  unfolding make_sender_policy_capacity
  position-make_sender_policy_capacity s t e h =
      elim (Bool-cases (ltb (length s.sender_policies) max_policy_senders)) [
        | inl room ↦
            let same : s ≡ t = ground arith in
            subst (λ x. position (is_of sender) x.sender_policies ≡ none) same h
        | inr full ↦ elim (Option-cases (least_active s.records 0 s.sender_policies)) [
          | inl nothing ↦ ground arith
          | inr (found, there) ↦
              let rest = remove_at found.0 s.sender_policies in
              let same : record s { sender_policies = rest } ≡ t = ground arith in
              subst (λ x. position (is_of sender) x.sender_policies ≡ none) same
                (position-remove_at s.sender_policies found.0 h)
        ]
      ]

  -- The policy that serves the sender: its own, or a fresh one.
  abbrev pub policy_for : Scope → ℕ → List SenderPolicy → SenderPolicy
  policy_for scope now policies =
      Option.get_or (find (is_of sender) policies) (new_policy scope sender now)

  abbrev pub Added : Scope → ℕ → Snapshot → Snapshot × ℕ → Type 0
  Added scope now s found =
      (position (is_of sender) found.0.sender_policies ≡ some found.1)
      × (get_elem? found.0.sender_policies found.1 ≡ some (policy_for scope now s.sender_policies))

  with_new-Added :
      (scope : Scope) (now : ℕ) (s : Snapshot) (roomy : Snapshot)
      → position (is_of sender) s.sender_policies ≡ none
      → position (is_of sender) roomy.sender_policies ≡ none
      → Added scope now s (
        record roomy {
          sender_policies = roomy.sender_policies ++ (new_policy scope sender now ∷ []);
        },
        length roomy.sender_policies,
      )
  with_new-Added scope now s roomy h k =
      let (stands, at) =
        position-append_one roomy.sender_policies (new_policy scope sender now) k
          (same_refl Bytes-discrete sender) in
      (stands, at ∙ rw (find-none s.sender_policies h) refl)

  pub find_or_add_policy-Added :
      (scope : Scope) (now : ℕ) (s : Snapshot) (found : Snapshot × ℕ)
      → find_or_add_policy scope sender now s ≡ ok found
      → Added scope now s found
  unfolding find_or_add_policy
  find_or_add_policy-Added scope now s found e =
      elim (Option-cases (position (is_of sender) s.sender_policies)) [
        | inr (i, stands) ↦
            let same : (s, i) ≡ found = ground arith in
            let (p, at) = get_elem?-position s.sender_policies i stands in
            subst (Added scope now s) same
              (stands, at ∙ rw (find-position s.sender_policies i stands ∙ at) refl)
        | inl nowhere ↦
            let (roomy, made, added) =
              bind_ok (make_sender_policy_capacity s)
                (λ t. ok (
                  record t {
                    sender_policies = t.sender_policies ++ (new_policy scope sender now ∷ []);
                  },
                  length t.sender_policies,
                ))
                found (ground arith) in
            let same : (
              record roomy {
                sender_policies = roomy.sender_policies ++ (new_policy scope sender now ∷ []);
              },
              length roomy.sender_policies,
            )
                ≡ found =
              ground arith in
            subst (Added scope now s) same (
              with_new-Added scope now s roomy nowhere
                (position-make_sender_policy_capacity s roomy made nowhere))
      ]
