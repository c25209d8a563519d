-- ===== src/Deliveries/Acceptance.antt =====
-- How the host accepts an invitation: the plan of invitation_support.rs, with the ids and nonces
-- that runtime_support.rs derives from the seed.
--
-- SHA-256 is the parameter `sha256`, and the seed stands as its bytes. The errors are the code's.
use hivra_app.Prelude.{
  ℕ, Bool, true, false, not, Option, none, some, [], ◌∷◌, ◌++◌, if◌then◌else◌, get_elem?, Result,
  ok, err, ok_or, ◌>>=◌,
}
use mathlib.Core.Option
use hivra_app.Primitives.{Bytes, PubKey, StarterId, StarterKind, Network, slot_index}
use hivra_app.Slots.{SlotState, starter_in}
use hivra_app.Slots.Projection.{from_ledger, find_by_starter}
use hivra_app.Invitations.Accept.{
  AcceptPlan, use_existing_starter, create_starter_in_empty_slot, no_capacity, plan_accept_for_kind,
}
use hivra_app.Engine.Incoming.{first_created_kind}
use hivra_app.Deliveries.{
  Runtime, runtime_events, incoming_invitation_reuses_empty_slot_rejected_sender_starter,
}
use hivra_app.Deliveries.Skipped.{
  InvitationLookupRecord, find_invitation_sent_in_runtime_with_direction,
}
use Prim.Native.String.{String}

unfoldable pub capsule_network : Runtime → Result String Network
capsule_network none = err "no capsule"
capsule_network (some capsule) = ok capsule.network

unfoldable pub find_starter_kind_by_id_in_runtime : Runtime → StarterId → Option StarterKind
find_starter_kind_by_id_in_runtime runtime starter_id =
    first_created_kind starter_id (runtime_events runtime)

abbrev pub is_some : {A : Type 0} → Option A → Bool
is_some none = false
is_some (some _) = true

unfoldable pub starter_is_active_in_runtime : Runtime → StarterId → Bool
starter_is_active_in_runtime none starter_id = false
starter_is_active_in_runtime (some capsule) starter_id =
    is_some (find_by_starter (from_ledger capsule.ledger) starter_id)

abbrev pub starter_at : Option SlotState → Option StarterId
starter_at none = none
starter_at (some state) = starter_in state

abbrev pub active_starter_at : Runtime → Option ℕ → Option StarterId
active_starter_at (some capsule) (some index) =
    starter_at (get_elem? (from_ledger capsule.ledger) index)
active_starter_at _ _ = none

unfoldable pub active_starter_id_for_slot : Runtime → ℕ → Option StarterId
active_starter_id_for_slot runtime slot = active_starter_at runtime (slot_index slot)

-- b"starter_v2_lineage"
abbrev pub starter_tag : Bytes
starter_tag =
    b's' ∷ b't' ∷ b'a' ∷ b'r' ∷ b't' ∷ b'e' ∷ b'r' ∷ b'_' ∷ b'v' ∷ b'2' ∷ b'_' ∷ b'l' ∷ b'i' ∷ b'n'
    ∷ b'e' ∷ b'a' ∷ b'g' ∷ b'e' ∷ []

-- b"starter_nonce_v2_lineage"
abbrev pub nonce_tag : Bytes
nonce_tag =
    b's' ∷ b't' ∷ b'a' ∷ b'r' ∷ b't' ∷ b'e' ∷ b'r' ∷ b'_' ∷ b'n' ∷ b'o' ∷ b'n' ∷ b'c' ∷ b'e' ∷ b'_'
    ∷ b'v' ∷ b'2' ∷ b'_' ∷ b'l' ∷ b'i' ∷ b'n' ∷ b'e' ∷ b'a' ∷ b'g' ∷ b'e' ∷ []

pub record CreatedStarter : Type 0 where
  pub starter_id : StarterId
  pub kind : StarterKind
  pub nonce : Bytes

pub record LocalAcceptancePlan : Type 0 where
  pub invitation_id : Bytes
  pub sender_pubkey : PubKey
  pub sender_root_pubkey : Option PubKey
  pub sender_starter_id : StarterId
  pub sender_starter_type : StarterKind
  pub relationship_starter_id : StarterId
  pub relationship_kind : StarterKind
  pub peer_starter_id : StarterId
  pub created_starter : Option CreatedStarter

module _ (sha256 : Bytes → Bytes) where
  unfoldable pub derive_starter_id_lineage : Bytes → ℕ → Bytes → PubKey → Bytes
  derive_starter_id_lineage seed slot invitation_id inviter_anchor =
      sha256 (seed ++ (slot ∷ (invitation_id ++ (inviter_anchor ++ starter_tag))))

  unfoldable pub derive_starter_nonce_lineage : Bytes → ℕ → Bytes → PubKey → Bytes
  derive_starter_nonce_lineage seed slot invitation_id inviter_anchor =
      sha256 (seed ++ (slot ∷ (invitation_id ++ (inviter_anchor ++ nonce_tag))))

  -- The starter that the plan creates in the slot.
  abbrev pub lineage_starter : Bytes → Bytes → PubKey → ℕ → StarterKind → CreatedStarter
  lineage_starter seed invitation_id inviter_anchor slot kind = record {
    starter_id = derive_starter_id_lineage seed slot invitation_id inviter_anchor;
    kind = kind;
    nonce = derive_starter_nonce_lineage seed slot invitation_id inviter_anchor;
  }

  abbrev pub acceptance_plan :
      Bytes → InvitationLookupRecord → StarterId → Option CreatedStarter → LocalAcceptancePlan
  acceptance_plan invitation_id r relationship_starter_id created_starter = record {
    invitation_id = invitation_id;
    sender_pubkey = r.peer_pubkey;
    sender_root_pubkey = r.sender_root_pubkey;
    sender_starter_id = r.starter_id;
    sender_starter_type = r.starter_kind;
    relationship_starter_id = relationship_starter_id;
    relationship_kind = r.starter_kind;
    peer_starter_id = r.starter_id;
    created_starter = created_starter;
  }

  -- The `match` on the core's plan.
  abbrev pub local_plan :
      Bytes
      → Bytes
      → InvitationLookupRecord
      → PubKey
      → AcceptPlan
      → Result String LocalAcceptancePlan
  local_plan seed invitation_id r inviter_anchor (use_existing_starter starter_id created_starter) =
      ok (
        acceptance_plan invitation_id r starter_id (
          Option.map (λ p. lineage_starter seed invitation_id inviter_anchor p.slot p.kind)
            created_starter))
  local_plan seed invitation_id r inviter_anchor (create_starter_in_empty_slot slot kind) =
      let created = lineage_starter seed invitation_id inviter_anchor slot kind in
      ok (acceptance_plan invitation_id r created.starter_id (some created))
  local_plan seed invitation_id r inviter_anchor no_capacity =
      err "no capacity to accept invitation"

  -- The rest of the function, for the invitation that it has found.
  abbrev pub plan_for :
      Bytes → Runtime → Bytes → InvitationLookupRecord → PubKey → Result String LocalAcceptancePlan
  plan_for seed runtime invitation_id r inviter_anchor =
      if not r.is_incoming
      then err "matching incoming invitation not found"
      else if incoming_invitation_reuses_empty_slot_rejected_sender_starter runtime invitation_id
          r.starter_id inviter_anchor
      then err "incoming invitation reuses burned sender starter"
      else do
        capsule ← ok_or runtime "no capsule"
        local_plan seed invitation_id r inviter_anchor
            (plan_accept_for_kind capsule.ledger (from_ledger capsule.ledger) r.starter_kind)

  unfoldable pub resolve_local_acceptance_plan :
      Bytes → Runtime → Bytes → Result String LocalAcceptancePlan
  resolve_local_acceptance_plan seed runtime invitation_id = do
    r ←
        ok_or (find_invitation_sent_in_runtime_with_direction runtime invitation_id (some true))
          "matching incoming invitation not found"
    plan_for seed runtime invitation_id r (Option.get_or r.sender_root_pubkey r.peer_pubkey)
