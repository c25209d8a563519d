-- ===== src/Quarantine/Policies.antt =====
-- The token bucket of each sender: refills, charges and the capacity for them
-- (inbound_quarantine.rs).
use hivra_app.Prelude.{
  ℕ, zero, suc, ◌+◌, ◌-◌, ◌*◌, ◌/◌, Bool, not, ◌&&◌, Option, none, some, List, [], ◌∷◌, ◌++◌,
  Result, ok, err, ltb, leb, ◌==◌, if◌then◌else◌, length, any, retain, position, map,
  saturating_add, u64_max, bytes_le, sort_by, ◌>>=◌,
}
use hivra_app.Primitives.{Bytes, bytes_eq}
use hivra_app.Quarantine.{
  QuarantineError, capacity, corrupt, Scope, QuarantineRecord, ChargeEvidence, SenderPolicy,
  Snapshot, Host, quarantine_schema_version, sender_policy_burst, sender_policy_refill_secs,
  max_policy_senders, charge_evidence_retention_secs, max_charge_evidence,
  max_charge_evidence_per_sender, max_sender_policy_bytes,
}

abbrev pub min : ℕ → ℕ → ℕ
min a b = if leb a b then a else b

-- `values[i] = f(values[i])`
abbrev pub update_at : {A : Type 0} → (A → A) → ℕ → List A → List A
update_at f i [] = []
update_at f zero (x ∷ xs) = f x ∷ xs
update_at f (suc i) (x ∷ xs) = x ∷ update_at f i xs

abbrev pub remove_at : {A : Type 0} → ℕ → List A → List A
remove_at i [] = []
remove_at zero (x ∷ xs) = xs
remove_at (suc i) (x ∷ xs) = x ∷ remove_at i xs

-- The refill of one policy: a `u8` of permits, at most 255 of them at once.
unfoldable pub refill_policy : ℕ → SenderPolicy → SenderPolicy
refill_policy now policy =
    let refill = (now - policy.last_refill_at) / sender_policy_refill_secs in
    if ltb 0 refill
    then record policy {
      available_permits =
          min (min 255 (policy.available_permits + min refill 255)) sender_policy_burst;
      last_refill_at =
          saturating_add policy.last_refill_at (min u64_max (refill * sender_policy_refill_secs));
    }
    else policy

-- The evidence that is kept: none older than the retention.
unfoldable pub retained_charges : ℕ → List ChargeEvidence → List ChargeEvidence
retained_charges now charges =
    retain (λ evidence. leb (now - evidence.charged_at) charge_evidence_retention_secs) charges

unfoldable pub maintain_policy : ℕ → SenderPolicy → SenderPolicy
maintain_policy now policy =
    refill_policy now
      (record policy { charged_events = retained_charges now policy.charged_events })

unfoldable pub maintain_sender_policy_state : Snapshot → ℕ → Snapshot
maintain_sender_policy_state snapshot now = record snapshot {
  sender_policies = map (maintain_policy now) snapshot.sender_policies;
}

-- A policy that may go: full, without evidence, and without a waiting record.
abbrev pub is_removable : List QuarantineRecord → SenderPolicy → Bool
is_removable records policy =
    policy.available_permits == sender_policy_burst
    && (length policy.charged_events == 0
        && not (
            any (λ record_. bytes_eq record_.authenticated_sender policy.authenticated_sender)
              records))

-- The first of two candidates unless the second was active earlier.
abbrev pub earlier : ℕ × ℕ → Option (ℕ × ℕ) → Option (ℕ × ℕ)
earlier here none = some here
earlier here (some there) = if leb here.1 there.1 then some here else some there

-- `min_by_key` over the removable policies: the index and the last activity.
unfoldable pub least_active : List QuarantineRecord → ℕ → List SenderPolicy → Option (ℕ × ℕ)
least_active records index [] = none
least_active records index (policy ∷ policies) =
    let rest = least_active records (suc index) policies in
    if is_removable records policy then earlier (index, policy.last_activity_at) rest else rest

unfoldable pub make_sender_policy_capacity : Snapshot → Result QuarantineError Snapshot
make_sender_policy_capacity snapshot =
    if ltb (length snapshot.sender_policies) max_policy_senders
    then ok snapshot
    else elim (least_active snapshot.records 0 snapshot.sender_policies) [
      | none ↦ err capacity
      | some found ↦
          ok (record snapshot { sender_policies = remove_at found.0 snapshot.sender_policies })
    ]

abbrev pub total_charges : List SenderPolicy → ℕ
total_charges [] = 0
total_charges (policy ∷ policies) = length policy.charged_events + total_charges policies

-- "capacity-probe"
abbrev pub capacity_probe : Bytes
capacity_probe =
    b'c' ∷ b'a' ∷ b'p' ∷ b'a' ∷ b'c' ∷ b'i' ∷ b't' ∷ b'y' ∷ b'-' ∷ b'p' ∷ b'r' ∷ b'o' ∷ b'b' ∷ b'e'
    ∷ []

abbrev pub add_charge : Bytes → ℕ → SenderPolicy → SenderPolicy
add_charge event_id at policy = record policy {
  charged_events =
      policy.charged_events ++ (record { adapter_event_id = event_id; charged_at = at } ∷ []);
}

-- `policy` is the one at the index.
unfoldable pub ensure_charge_evidence_capacity :
    Host → Snapshot → ℕ → SenderPolicy → Result QuarantineError (Unit {0})
ensure_charge_evidence_capacity host snapshot policy_index policy =
    if leb max_charge_evidence (total_charges snapshot.sender_policies)
    then err capacity
    else if leb max_charge_evidence_per_sender (length policy.charged_events)
    then err capacity
    else elim (host.policies_size
        (update_at (add_charge capacity_probe 0) policy_index snapshot.sender_policies)) [
          | none ↦ err corrupt
          | some size ↦ if ltb max_sender_policy_bytes size then err capacity else ok tt
        ]

abbrev pub charge_le : ChargeEvidence → ChargeEvidence → Bool
charge_le a b = bytes_le a.adapter_event_id b.adapter_event_id

-- The charge of one event; `apply_sender_policy` makes it only where a permit is left.
unfoldable pub charge_policy : Bytes → ℕ → SenderPolicy → SenderPolicy
charge_policy event_id now policy = record policy {
  available_permits = policy.available_permits - 1;
  last_activity_at = now;
  charged_events =
      sort_by charge_le
        (policy.charged_events ++ (record { adapter_event_id = event_id; charged_at = now } ∷ []));
}

abbrev pub touch_policy : ℕ → SenderPolicy → SenderPolicy
touch_policy now policy = record policy { last_activity_at = now }

-- The policy of a sender that has none.
abbrev pub new_policy : Scope → Bytes → ℕ → SenderPolicy
new_policy scope authenticated_sender now = record {
  schema_version = quarantine_schema_version;
  scope = scope;
  authenticated_sender = authenticated_sender;
  available_permits = sender_policy_burst;
  last_refill_at = now;
  last_activity_at = now;
  charged_events = [];
}

-- The snapshot with a policy for the sender, and where it stands.
unfoldable pub find_or_add_policy :
    Scope → Bytes → ℕ → Snapshot → Result QuarantineError (Snapshot × ℕ)
find_or_add_policy scope sender now snapshot =
    elim (position (λ p. bytes_eq p.authenticated_sender sender) snapshot.sender_policies) [
      | some index ↦ ok (snapshot, index)
      | none ↦ make_sender_policy_capacity snapshot >>= λ roomy. ok (
        record roomy {
          sender_policies = roomy.sender_policies ++ (new_policy scope sender now ∷ []);
        },
        length roomy.sender_policies,
      )
    ]
