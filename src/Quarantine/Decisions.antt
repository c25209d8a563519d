-- ===== src/Quarantine/Decisions.antt =====
-- What a decision of `apply_sender_policy` does to the policy of the sender.
use hivra_app.Prelude.{
  ℕ, find, ◌≡◌, refl, ap, sym, ◌∙◌, Bool, true, false, Option, some, List, ok, arith, any, position,
  get_elem?, Bool-cases, inl, inr, ◌⊎◌, ◌==◌,
}
use hivra_app.Primitives.{Bytes, bytes_eq}
use hivra_app.Transport.{DeliveryEnvelope}
use hivra_app.Quarantine.{
  SenderPolicy, Snapshot, SenderIngressDecision, Host, permit, already_charged,
  quarantined_decision,
}
use hivra_app.Quarantine.Senders.{is_of, find-update_at}
use hivra_app.Quarantine.Policies.{
  update_at, ensure_charge_evidence_capacity, charge_policy, touch_policy,
}
use hivra_app.Quarantine.Records.{append_quarantine_record}
use hivra_app.Quarantine.Store.{Repository, and_then, commit, persist, decide, reason_rate_limited}
use hivra_app.Quarantine.Steps.{bind_ok, and_then_ok, append_quarantine_record_cases}

-- Whether an event is among the charges of a policy.
abbrev pub is_charged : Bytes → SenderPolicy → Bool
is_charged event_id policy =
    any (λ evidence. bytes_eq evidence.adapter_event_id event_id) policy.charged_events

module _ (host : Host) where
  pub append_keeps_policies :
      (s t : Snapshot) (repo : Repository) (event_id : Bytes) (observed_by : List Bytes)
      (envelope : DeliveryEnvelope) (now : ℕ)
      → append_quarantine_record host s repo.scope event_id observed_by envelope reason_rate_limited
          now
        ≡ ok t
      → t.sender_policies ≡ s.sender_policies
  append_keeps_policies s t repo event_id observed_by envelope now e =
      elim (append_quarantine_record_cases host s t repo.scope event_id observed_by envelope
        reason_rate_limited now e) [
          | inl (existing, found, same) ↦ ap (λ x. x.sender_policies) same
          | inr (ciphertext, new, room, fits, same) ↦ ap (λ x. x.sender_policies) same
        ]

  pub commit_ok :
      (repo : Repository) (next : Snapshot) (a d : SenderIngressDecision)
      → (commit host repo next a).1 ≡ ok d
      → d ≡ a
  commit_ok repo next a d e =
      let (_, _, same) = bind_ok (persist host (record repo { snapshot = next })) (λ _. ok a) d e in
      ground arith

  -- What a decision on an event that does not wait does to the sender's policy, which is `policy`
  -- after its refill.
  abbrev pub Served :
      ℕ → Bytes → SenderPolicy → SenderIngressDecision → Option SenderPolicy → Type 0
  Served now event_id policy decision after =
      ((is_charged event_id policy ≡ true)
        × (decision ≡ already_charged)
        × (after ≡ some (touch_policy now policy)))
      ⊎ ((is_charged event_id policy ≡ false)
          × (policy.available_permits ≡ 0)
          × (decision ≡ quarantined_decision)
          × (after ≡ some (touch_policy now policy)))
      ⊎ ((is_charged event_id policy ≡ false)
          × ((policy.available_permits == 0) ≡ false)
          × (decision ≡ permit)
          × (after ≡ some (charge_policy event_id now policy)))

  pub decide-Served :
      (sender : Bytes) (repo : Repository) (event_id : Bytes) (observed_by : List Bytes)
      (envelope : DeliveryEnvelope) (now : ℕ) (next : Snapshot) (index : ℕ) (policy : SenderPolicy)
      (decision : SenderIngressDecision)
      → position (is_of sender) next.sender_policies ≡ some index
      → get_elem? next.sender_policies index ≡ some policy
      → (decide host repo event_id observed_by envelope now next index policy).1 ≡ ok decision
      → Served now event_id policy decision (
          find
            (is_of sender)
            (decide host repo event_id observed_by envelope now next index
              policy).0.snapshot.sender_policies)
  unfolding charge_policy
  decide-Served sender repo event_id observed_by envelope now next index policy decision stands at
        e =
      elim (Bool-cases (is_charged event_id policy)) [
        | inl charged ↦
            let chosen = decide_charged charged in
            inl (
              charged,
              commit_ok repo touched already_charged decision (sym (ap (λ x. x.1) chosen) ∙ e),
              ap (λ x. find (is_of sender) x.0.snapshot.sender_policies) chosen
                  ∙ find-update_at sender (touch_policy now) next.sender_policies index policy
                      (λ q. refl) stands at,
            )
        | inr fresh ↦ elim (Bool-cases (policy.available_permits == 0)) [
          | inl spent ↦
              let chosen = decide_spent fresh spent in
              let (waiting, pushed, same, answer) =
                and_then_ok host repo
                  (append_quarantine_record host next repo.scope event_id observed_by envelope
                    reason_rate_limited now)
                  (λ waiting. commit host repo (touched_of waiting) quarantined_decision) decision
                  (sym (ap (λ x. x.1) chosen) ∙ e) in
              let beside =
                append_keeps_policies next waiting repo event_id observed_by envelope now pushed in
              inr (
                inl (
                  fresh,
                  ground arith,
                  commit_ok repo (touched_of waiting) quarantined_decision decision answer,
                  ap (λ x. find (is_of sender) x.0.snapshot.sender_policies) (chosen ∙ same)
                      ∙ find-update_at sender (touch_policy now) waiting.sender_policies index
                          policy (λ q. refl) (ap (position (is_of sender)) beside ∙ stands)
                          (ap (λ x. get_elem? x index) beside ∙ at),
                ))
          | inr left ↦
              let chosen = decide_left fresh left in
              let (_, room, same, answer) =
                and_then_ok host repo (ensure_charge_evidence_capacity host next index policy)
                  (λ _. commit host repo charged_of permit) decision
                  (sym (ap (λ x. x.1) chosen) ∙ e) in
              inr (
                inr (
                  fresh,
                  left,
                  commit_ok repo charged_of permit decision answer,
                  ap (λ x. find (is_of sender) x.0.snapshot.sender_policies) (chosen ∙ same)
                      ∙ find-update_at sender (charge_policy event_id now) next.sender_policies
                          index policy (λ q. refl) stands at,
                ))
        ]
      ]
    where
      touched_of : Snapshot → Snapshot
      touched_of s = record s {
        sender_policies = update_at (touch_policy now) index s.sender_policies;
      }

      touched : Snapshot
      touched = touched_of next

      charged_of : Snapshot
      charged_of = record next {
        sender_policies = update_at (charge_policy event_id now) index next.sender_policies;
      }

      decide_charged :
          is_charged event_id policy ≡ true
          → decide host repo event_id observed_by envelope now next index policy
            ≡ commit host repo touched already_charged
      decide_charged charged = rw charged refl

      decide_spent :
          is_charged event_id policy ≡ false
          → (policy.available_permits == 0) ≡ true
          → decide host repo event_id observed_by envelope now next index policy
            ≡ and_then host repo
                (append_quarantine_record host next repo.scope event_id observed_by envelope
                  reason_rate_limited now)
                (λ waiting. commit host repo (touched_of waiting) quarantined_decision)
      decide_spent fresh spent = rw (fresh, spent) refl

      decide_left :
          is_charged event_id policy ≡ false
          → (policy.available_permits == 0) ≡ false
          → decide host repo event_id observed_by envelope now next index policy
            ≡ and_then host repo
                (ensure_charge_evidence_capacity host next index policy)
                (λ _. commit host repo charged_of permit)
      decide_left fresh left = rw (fresh, left) refl
