-- ===== src/Engine/Incoming.antt =====
-- What the engine makes of invitations and of the answers to them (engine lib.rs).
use hivra_app.Prelude.{
  Option, none, some, List, [], ◌∷◌, Result, ok, err, ok_or, ◌>>=◌, not, if◌then◌else◌,
}
use hivra_app.Primitives.{Bytes, bytes_eq, PubKey, StarterId, StarterKind}
use hivra_app.Events.{Event, event_kind_eq, starter_created}
use hivra_app.Payloads.{
  empty_slot, other, InvitationAccepted, InvitationRejected, RelationshipEstablished,
  starter_created_from_bytes,
}
use hivra_app.Ledger.{Ledger}
use hivra_app.Slots.Projection.{from_ledger}
use hivra_app.Invitations.{incoming, outgoing, InvitationRecord}
use hivra_app.Invitations.View.{find_invitation_by_direction}
use hivra_app.Invitations.Accept.{AcceptPlan, plan_accept_for_kind}
use hivra_app.Engine.{
  Engine, EngineError, keystore_error, matching_invitation_not_found, IncomingEffect, append_event,
  OutgoingRejectionEffect, burn_starter, unlock_only, map_err, public_key,
}
use hivra_app.Engine.Prepare.{prepare_relationship_established}

-- The first event of the list that creates the starter, whoever signed it.
unfoldable pub first_created_kind : StarterId → List Event → Option StarterKind
first_created_kind starter_id [] = none
first_created_kind starter_id (event ∷ events) =
    let rest = first_created_kind starter_id events in
    if not (event_kind_eq event.kind starter_created)
    then rest
    else elim (starter_created_from_bytes event.payload) [
      | err _ ↦ rest
      | ok payload ↦ if bytes_eq payload.starter_id starter_id then some payload.kind else rest
    ]

unfoldable pub starter_kind_for_id : Ledger → StarterId → Option StarterKind
starter_kind_for_id ledger starter_id = first_created_kind starter_id ledger.events

-- `a.or_else(|| b)`
abbrev pub or_else : {A : Type 0} → Option A → Option A → Option A
or_else (some a) o = some a
or_else none o = o

module _ {K : Type 0} where
  unfoldable pub resolve_accept_plan : Ledger → Bytes → Result (EngineError K) AcceptPlan
  resolve_accept_plan ledger invitation_id = do
    invitation ←
        ok_or (find_invitation_by_direction ledger invitation_id incoming)
          matching_invitation_not_found
    kind ←
        ok_or
          (or_else invitation.starter_kind_hint (starter_kind_for_id ledger invitation.starter_id))
          matching_invitation_not_found
    ok (plan_accept_for_kind ledger (from_ledger ledger) kind)

  unfoldable pub effects_for_incoming_reject :
      Ledger → InvitationRejected → Result (EngineError K) OutgoingRejectionEffect
  effects_for_incoming_reject ledger payload = do
    invitation ←
        ok_or (find_invitation_by_direction ledger payload.invitation_id outgoing)
          matching_invitation_not_found
    ok (elim payload.reason [
      | empty_slot ↦ burn_starter invitation.starter_id
      | other ↦ unlock_only
    ])

-- The relationship that an accepted offer establishes for its sender.
abbrev pub established_from :
    InvitationRecord → StarterKind → PubKey → PubKey → InvitationAccepted → RelationshipEstablished
established_from invitation kind local_root_pubkey accepter_pubkey payload = record {
  peer_pubkey = accepter_pubkey;
  own_starter_id = invitation.starter_id;
  peer_starter_id = payload.created_starter_id;
  kind = kind;
  invitation_id = payload.invitation_id;
  sender_pubkey = local_root_pubkey;
  sender_starter_type = kind;
  sender_starter_id = invitation.starter_id;
  peer_root_pubkey = payload.accepter_root_pubkey;
  sender_root_pubkey = some local_root_pubkey;
}

module _ (sha256 : Bytes → Bytes) {C K : Type 0} (engine : Engine C K) where
  unfoldable pub effects_for_incoming_accept :
      Ledger → PubKey → InvitationAccepted → Result (EngineError K) (List IncomingEffect)
  effects_for_incoming_accept ledger accepter_pubkey payload = do
    invitation ←
        ok_or (find_invitation_by_direction ledger payload.invitation_id outgoing)
          matching_invitation_not_found
    kind ← ok_or (starter_kind_for_id ledger invitation.starter_id) matching_invitation_not_found
    local_root_pubkey ← map_err keystore_error (public_key engine)
    relationship ←
        prepare_relationship_established sha256 engine
          (established_from invitation kind local_root_pubkey accepter_pubkey payload)
    ok (append_event relationship.event ∷ [])
