-- ===== src/Quarantine/Rate.antt =====
-- How many events of one sender the token bucket lets through.
use hivra_app.Prelude.{
  ℕ, ◌+◌, ◌*◌, ◌-◌, ◌/◌, ◌≤◌, List, [], ◌∷◌, arith, All, u64_max, saturating_add, ◌==◌,
  if◌then◌else◌,
}
use hivra_app.Primitives.{Bytes}
use hivra_app.Quarantine.{SenderPolicy}
use hivra_app.Quarantine.Policies.{
  refill_policy, maintain_policy, charge_policy, touch_policy, retained_charges,
}

-- Between two states of a policy: what `grants` permits and the permits left cost, at 15 seconds
-- each, is covered by the permits there were and the time that the refills have used up.
pub record Covers (limit : ℕ) (p : SenderPolicy) (grants : ℕ) (q : SenderPolicy) : Type 0 where
  pub paid :
      15 * grants + 15 * q.available_permits + p.last_refill_at
      ≤ 15 * p.available_permits + q.last_refill_at
  pub onward : p.last_refill_at ≤ q.last_refill_at
  pub in_time : q.last_refill_at ≤ limit

refill_policy-Covers :
    (limit now : ℕ) (p : SenderPolicy)
    → limit ≤ u64_max
    → now ≤ limit
    → p.last_refill_at ≤ limit
    → Covers limit p 0 (refill_policy now p)
unfolding refill_policy saturating_add
refill_policy-Covers limit now p fits early start = record {
  paid = ground arith;
  onward = ground arith;
  in_time = ground arith;
}

-- What an event of the sender does to the sender's policy where it is not charged yet: a refill,
-- and a charge where a permit is left.
abbrev pub serve : ℕ × Bytes → SenderPolicy → SenderPolicy
serve (now, event_id) policy =
    if (maintain_policy now policy).available_permits == 0
    then touch_policy now (maintain_policy now policy)
    else charge_policy event_id now (maintain_policy now policy)

-- The events, each at its time, that find a permit, in the order in which they come.
abbrev pub grants : SenderPolicy → List (ℕ × Bytes) → ℕ
grants policy [] = 0
grants policy ((now, event_id) ∷ events) =
    let later = grants (serve (now, event_id) policy) events in
    if (maintain_policy now policy).available_permits == 0 then later else 1 + later

maintain_policy-Covers :
    (limit now : ℕ) (p : SenderPolicy)
    → limit ≤ u64_max
    → now ≤ limit
    → p.last_refill_at ≤ limit
    → Covers limit p 0 (maintain_policy now p)
unfolding maintain_policy
maintain_policy-Covers limit now p fits early start =
    let h =
      refill_policy-Covers limit now
        (record p { charged_events = retained_charges now p.charged_events }) fits early start in
    record { paid = h.paid; onward = h.onward; in_time = h.in_time }

-- Whether an event at that time finds a permit.
abbrev granted : ℕ → SenderPolicy → ℕ
granted now policy = if (maintain_policy now policy).available_permits == 0 then 0 else 1

serve-Covers :
    (limit now : ℕ) (event_id : Bytes) (p : SenderPolicy)
    → limit ≤ u64_max
    → now ≤ limit
    → p.last_refill_at ≤ limit
    → Covers limit p (granted now p) (serve (now, event_id) p)
unfolding charge_policy
serve-Covers limit now event_id p fits early start =
    let h = maintain_policy-Covers limit now p fits early start in
    let paid = h.paid in
    let onward = h.onward in
    let in_time = h.in_time in
    record { paid = ground arith; onward = ground arith; in_time = ground arith }

grants-paid :
    (limit : ℕ) (policy : SenderPolicy) (events : List (ℕ × Bytes))
    → limit ≤ u64_max
    → policy.last_refill_at ≤ limit
    → All (λ e. e.0 ≤ limit) events
    → 15 * grants policy events + policy.last_refill_at ≤ 15 * policy.available_permits + limit
grants-paid limit policy [] fits start early = omega arith
grants-paid limit policy ((now, event_id) ∷ events) fits start (first, rest) =
    let h = serve-Covers limit now event_id policy fits first start in
    let paid = h.paid in
    let later = grants-paid limit (serve (now, event_id) policy) events fits h.in_time rest in
    ground arith

-- However the events of a sender follow one another, in any order of times up to a limit, those
-- that find a permit are at most as many as the permits at the start and one for every 15 seconds
-- between the last refill before them and the limit.
pub grants-bounded :
    (limit : ℕ) (policy : SenderPolicy) (events : List (ℕ × Bytes))
    → limit ≤ u64_max
    → policy.last_refill_at ≤ limit
    → All (λ e. e.0 ≤ limit) events
    → grants policy events ≤ policy.available_permits + (limit - policy.last_refill_at) / 15
grants-bounded limit policy events fits start early =
    let paid = grants-paid limit policy events fits start early in ground arith
