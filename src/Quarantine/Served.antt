-- ===== src/Quarantine/Served.antt =====
-- `apply_sender_policy` serves the events of a sender as its token bucket says.
use hivra_app.Prelude.{
  ℕ, subst, find, if◌then◌else◌, ◌≡◌, refl, ap, sym, ◌∙◌, Bool, true, false, some, List, ok, arith,
  any, map, get_elem?, inl, inr, ◌⊎◌, Result,
}
use mathlib.Core.Option
use hivra_app.Primitives.{Bytes}
use hivra_app.Transport.{DeliveryEnvelope}
use hivra_app.Quarantine.{
  QuarantineError, SenderPolicy, Scope, Snapshot, SenderIngressDecision, Host, quarantined_decision,
}
use hivra_app.Quarantine.Senders.{is_of, policy_for, find-map, find_or_add_policy-Added}
use hivra_app.Quarantine.Text.{validate_event_id, encode_hex}
use hivra_app.Quarantine.Policies.{
  new_policy, refill_policy, maintain_policy, maintain_sender_policy_state, find_or_add_policy,
}
use hivra_app.Quarantine.Records.{has_event_id, append_quarantine_record}
use hivra_app.Quarantine.Store.{
  Repository, and_then, commit, decide, decide_at, apply_sender_policy, reason_rate_limited,
}
use hivra_app.Quarantine.Steps.{and_then_ok}
use hivra_app.Quarantine.Decisions.{append_keeps_policies, commit_ok, Served, decide-Served}

module _ (host : Host) where
  -- A decision on an event that waits already: it is seen again, and no policy is charged.
  abbrev pub Waits : ℕ → List SenderPolicy → SenderIngressDecision → List SenderPolicy → Type 0
  Waits now before decision after =
      (decision ≡ quarantined_decision) × (after ≡ map (maintain_policy now) before)

  waiting-Waits :
      (repo : Repository) (event_id : Bytes) (observed_by : List Bytes)
      (envelope : DeliveryEnvelope) (now : ℕ) (decision : SenderIngressDecision)
      → let next = maintain_sender_policy_state repo.snapshot now in
        let answer =
          and_then host repo
            (append_quarantine_record host next repo.scope event_id observed_by envelope
              reason_rate_limited now)
            (λ waiting. commit host repo waiting quarantined_decision) in
        answer.1 ≡ ok decision
        → Waits now repo.snapshot.sender_policies decision answer.0.snapshot.sender_policies
  unfolding maintain_sender_policy_state
  waiting-Waits repo event_id observed_by envelope now decision e =
      let next = maintain_sender_policy_state repo.snapshot now in
      let (waiting, pushed, same, answer) =
        and_then_ok host repo
          (append_quarantine_record host next repo.scope event_id observed_by envelope
            reason_rate_limited now)
          (λ waiting. commit host repo waiting quarantined_decision) decision e in
      (
        commit_ok host repo waiting quarantined_decision decision answer,
        ap (λ x. x.0.snapshot.sender_policies) same
            ∙ append_keeps_policies host next waiting repo event_id observed_by envelope now pushed,
      )

  policy_for-maintain :
      (sender : Bytes) (scope : Scope) (now : ℕ) (policies : List SenderPolicy)
      → policy_for sender scope now (map (maintain_policy now) policies)
        ≡ Option.get_or
            (Option.map (maintain_policy now) (find (is_of sender) policies))
            (new_policy scope sender now)
  unfolding maintain_policy refill_policy
  policy_for-maintain sender scope now policies =
      ap (λ o. Option.get_or o (new_policy scope sender now))
        (find-map sender (maintain_policy now) policies (λ p. ground arith))

  served :
      (repo : Repository) (event_id : Bytes) (observed_by : List Bytes)
      (envelope : DeliveryEnvelope) (now : ℕ) (decision : SenderIngressDecision)
      → let sender = encode_hex envelope.from in
        let next = maintain_sender_policy_state repo.snapshot now in
        let answer =
          and_then host repo
            (find_or_add_policy repo.scope sender now next)
            (decide_at host repo event_id observed_by envelope now) in
        answer.1 ≡ ok decision
        → Served host now event_id
            (policy_for sender repo.scope now next.sender_policies)
            decision
            (find (is_of sender) answer.0.snapshot.sender_policies)
  served repo event_id observed_by envelope now decision e =
      let sender = encode_hex envelope.from in
      let next = maintain_sender_policy_state repo.snapshot now in
      let policy = policy_for sender repo.scope now next.sender_policies in
      let (found, added, same, answer) =
        and_then_ok host repo (find_or_add_policy repo.scope sender now next)
          (decide_at host repo event_id observed_by envelope now) decision e in
      let (stands, at) = find_or_add_policy-Added sender repo.scope now next found added in
      let chosen = decide_at_policy repo event_id observed_by envelope now found policy at in
      rw (same, chosen)
        (decide-Served host sender repo event_id observed_by envelope now found.0 found.1 policy
          decision stands at (sym (ap (λ x. x.1) chosen) ∙ answer))
    where
      decide_at_policy :
          (repo : Repository) (event_id : Bytes) (observed_by : List Bytes)
          (envelope : DeliveryEnvelope) (now : ℕ) (found : Snapshot × ℕ) (policy : SenderPolicy)
          → get_elem? found.0.sender_policies found.1 ≡ some policy
          → decide_at host repo event_id observed_by envelope now found
            ≡ decide host repo event_id observed_by envelope now found.0 found.1 policy
      decide_at_policy repo event_id observed_by envelope now found policy at =
          rw (at, decide_at) refl

  -- What the call makes of an event that waits, and of another.
  abbrev seen_again :
      Repository
      → Bytes
      → List Bytes
      → DeliveryEnvelope
      → ℕ
      → Repository × Result QuarantineError SenderIngressDecision
  seen_again repo event_id observed_by envelope now =
      and_then host repo
        (append_quarantine_record host (maintain_sender_policy_state repo.snapshot now) repo.scope
          event_id observed_by envelope reason_rate_limited now)
        (λ waiting. commit host repo waiting quarantined_decision)

  abbrev served_now :
      Repository
      → Bytes
      → List Bytes
      → DeliveryEnvelope
      → ℕ
      → Repository × Result QuarantineError SenderIngressDecision
  served_now repo event_id observed_by envelope now =
      and_then host repo
        (find_or_add_policy repo.scope (encode_hex envelope.from) now
          (maintain_sender_policy_state repo.snapshot now))
        (decide_at host repo event_id observed_by envelope now)

  abbrev pub Decided :
      Repository → Bytes → DeliveryEnvelope → ℕ → SenderIngressDecision → Repository → Type 0
  Decided repo event_id envelope now decision after =
      let sender = encode_hex envelope.from in
      let policies = repo.snapshot.sender_policies in
      ((any (has_event_id event_id) repo.snapshot.records ≡ true)
        × Waits now policies decision after.snapshot.sender_policies)
      ⊎ ((any (has_event_id event_id) repo.snapshot.records ≡ false)
          × Served host now event_id
              (Option.get_or (Option.map (maintain_policy now) (find (is_of sender) policies))
                (new_policy repo.scope sender now))
              decision (find (is_of sender) after.snapshot.sender_policies))

  decided :
      (repo : Repository) (event_id : Bytes) (observed_by : List Bytes)
      (envelope : DeliveryEnvelope) (now : ℕ) (decision : SenderIngressDecision) (waits : Bool)
      → let answer =
          if waits
          then seen_again repo event_id observed_by envelope now
          else served_now repo event_id observed_by envelope now in
        any (has_event_id event_id) repo.snapshot.records ≡ waits
        → answer.1 ≡ ok decision
        → Decided repo event_id envelope now decision answer.0
  unfolding maintain_sender_policy_state
  decided repo event_id observed_by envelope now decision true waits answer =
      inl (waits, waiting-Waits repo event_id observed_by envelope now decision answer)
  decided repo event_id observed_by envelope now decision false new answer = inr (
    new,
    subst
        (λ policy. Served host now event_id policy decision (
          find (is_of (encode_hex envelope.from))
            (served_now repo event_id observed_by envelope now).0.snapshot.sender_policies))
        (policy_for-maintain (encode_hex envelope.from) repo.scope now
          repo.snapshot.sender_policies)
        (served repo event_id observed_by envelope now decision answer),
  )

  -- Where `apply_sender_policy` answers a decision, an event that waits already is quarantined, and
  -- the policies are only refilled. Any other event is served by the policy of its sender, which
  -- is refilled first, or by a fresh one if the sender has none; that policy is the sender's
  -- afterwards: an event among its charges is `already_charged` and costs nothing; without a permit
  -- the event is quarantined and costs nothing; else it is permitted and takes one permit.
  pub apply_sender_policy-Served :
      (repo : Repository) (event_id : Bytes) (observed_by : List Bytes)
      (envelope : DeliveryEnvelope) (now : ℕ) (decision : SenderIngressDecision)
      → (apply_sender_policy host repo event_id observed_by envelope now).1 ≡ ok decision
      → Decided repo event_id envelope now decision
          (apply_sender_policy host repo event_id observed_by envelope now).0
  unfolding apply_sender_policy maintain_sender_policy_state
  apply_sender_policy-Served repo event_id observed_by envelope now decision e =
      let waits = any (has_event_id event_id) repo.snapshot.records in
      let (_, _, same, answer) =
        and_then_ok host repo (validate_event_id event_id)
          (λ _.
            if waits
            then seen_again repo event_id observed_by envelope now
            else served_now repo event_id observed_by envelope now)
          decision e in
      subst (λ x. Decided repo event_id envelope now decision x.0) (sym same)
        (decided repo event_id observed_by envelope now decision waits refl answer)
