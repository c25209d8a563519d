-- ===== src/Deliveries/Pending.antt =====
-- invitation_support.rs: the facts of the capsule that its peers have not confirmed yet, in the
-- order in which the host delivers them.
use hivra_app.Prelude.{
  ℕ, Bool, true, false, not, Option, none, some, List, [], ◌∷◌, ltb, if◌then◌else◌, find, map,
  retain, ok, err, sort_by, bytes_le,
}
use mathlib.Core.Option
use hivra_app.Primitives.{Bytes, bytes_eq, PubKey, StarterId, Timestamp}
use hivra_app.Events.{
  Event, EventKind, event_id, invitation_sent, invitation_accepted, invitation_rejected,
  invitation_expired, relationship_established, relationship_broken,
}
use hivra_app.Payloads.{
  RelationshipEstablished, RelationshipBroken, invitation_sent_from_bytes, InvitationSent,
  relationship_established_from_bytes, relationship_broken_from_bytes,
}
use hivra_app.Deliveries.{
  Runtime, RelationshipKey, relationship_key_eq, invitation_id_from_terminal_payload,
}

pub record PendingOutgoingRelationshipBreakDelivery : Type 0 where
  pub event_id : Bytes
  pub to_pubkey : Bytes
  pub peer_starter_id : StarterId
  pub local_root_pubkey : PubKey
  pub timestamp : Timestamp

pub record PendingOutgoingInvitationDelivery : Type 0 where
  pub to_pubkey : Bytes
  pub payload : Bytes
  pub timestamp : Timestamp
  pub invitation_id : Bytes

-- A `HashMap`, whose keys are compared by `eq`.
module _ {K V : Type 0} (eq : K → K → Bool) where
  abbrev pub remove_key : K → List (K × V) → List (K × V)
  remove_key key entries = retain (λ e. not (eq e.0 key)) entries

  abbrev pub insert_key : K → V → List (K × V) → List (K × V)
  insert_key key value entries = (key, value) ∷ remove_key key entries

  abbrev pub get_key : K → List (K × V) → Option V
  get_key key entries = Option.map (λ e. e.1) (find (λ e. eq e.0 key) entries)

-- `cmp` of two numbers, then what follows, as an order.
abbrev pub then_le : Bool → Bool → Bool → Bool
then_le less more rest = if less then true else if more then false else rest

abbrev pub number_then : ℕ → ℕ → Bool → Bool
number_then a b rest = then_le (ltb a b) (ltb b a) rest

abbrev pub bytes_then : Bytes → Bytes → Bool → Bool
bytes_then a b rest = then_le (not (bytes_le b a)) (not (bytes_le a b)) rest

-- The variables of the loop over the events for the breaks.
pub record BreakState : Type 0 where
  pub latest_established : List (RelationshipKey × StarterId)
  pub pending : List (RelationshipKey × PendingOutgoingRelationshipBreakDelivery)

abbrev pub established_key : RelationshipEstablished → RelationshipKey
established_key p = record { peer_pubkey = p.peer_pubkey; own_starter_id = p.own_starter_id }

abbrev pub broken_key : RelationshipBroken → RelationshipKey
broken_key p = record { peer_pubkey = p.peer_pubkey; own_starter_id = p.own_starter_id }

module _ (sha256 : Bytes → Bytes) (local_root_pubkey : PubKey) where
  abbrev pub break_delivery :
      Event → RelationshipBroken → StarterId → PendingOutgoingRelationshipBreakDelivery
  break_delivery event p peer_starter_id = record {
    event_id = event_id sha256 event;
    to_pubkey = p.peer_pubkey;
    peer_starter_id = peer_starter_id;
    local_root_pubkey = local_root_pubkey;
    timestamp = event.timestamp;
  }

  -- A break by the capsule waits; one by another signer ends the wait.
  abbrev pub put_break : Event → RelationshipBroken → BreakState → BreakState
  put_break event p state =
      if bytes_eq event.signer local_root_pubkey
      then elim (get_key relationship_key_eq (broken_key p) state.latest_established) [
        | none ↦ state
        | some peer_starter_id ↦ record state {
          pending =
              insert_key relationship_key_eq (broken_key p) (break_delivery event p peer_starter_id)
                state.pending;
        }
      ]
      else record state { pending = remove_key relationship_key_eq (broken_key p) state.pending }

  abbrev pub break_step : Event → BreakState → EventKind → BreakState
  break_step event state relationship_established =
      elim (relationship_established_from_bytes event.payload) [
        | err _ ↦ state
        | ok p ↦ record {
          latest_established =
              insert_key relationship_key_eq (established_key p) p.peer_starter_id
                state.latest_established;
          pending = remove_key relationship_key_eq (established_key p) state.pending;
        }
      ]
  break_step event state relationship_broken = elim (relationship_broken_from_bytes event.payload) [
    | err _ ↦ state
    | ok p ↦ put_break event p state
  ]
  break_step event state _ = state

  unfoldable pub break_loop : BreakState → List Event → BreakState
  break_loop state [] = state
  break_loop state (event ∷ events) = break_loop (break_step event state event.kind) events

abbrev pub break_le :
    PendingOutgoingRelationshipBreakDelivery → PendingOutgoingRelationshipBreakDelivery → Bool
break_le a b = number_then a.timestamp b.timestamp (
    bytes_then a.to_pubkey b.to_pubkey
      (bytes_then a.event_id b.event_id (bytes_le a.peer_starter_id b.peer_starter_id)))

unfoldable pub pending_outgoing_relationship_break_deliveries_in_runtime :
    (Bytes → Bytes) → Runtime → PubKey → List PendingOutgoingRelationshipBreakDelivery
pending_outgoing_relationship_break_deliveries_in_runtime sha256 none local_transport = []
pending_outgoing_relationship_break_deliveries_in_runtime sha256 (some capsule) local_transport =
    let start : BreakState = record { latest_established = []; pending = [] } in
    let state = break_loop sha256 capsule.pubkey start capsule.ledger.events in
    sort_by break_le
      (retain (λ d. not (bytes_eq d.to_pubkey local_transport)) (map (λ e. e.1) state.pending))

abbrev pub Offers : Type 0
Offers = List (Bytes × PendingOutgoingInvitationDelivery)

abbrev pub offer_delivery : Event → InvitationSent → PendingOutgoingInvitationDelivery
offer_delivery event p = record {
  to_pubkey = p.to_pubkey;
  payload = event.payload;
  timestamp = event.timestamp;
  invitation_id = p.invitation_id;
}

abbrev pub remove_answered : EventKind → Bytes → Offers → Offers
remove_answered kind payload pending = elim (invitation_id_from_terminal_payload kind payload) [
  | none ↦ pending
  | some invitation_id ↦ remove_key bytes_eq invitation_id pending
]

-- One round of the loop over the events, by the kind of the event.
abbrev pub offer_step : PubKey → Event → Offers → EventKind → Offers
offer_step root event pending invitation_sent =
    if bytes_eq event.signer root
    then elim (invitation_sent_from_bytes event.payload) [
      | err _ ↦ pending
      | ok p ↦ insert_key bytes_eq p.invitation_id (offer_delivery event p) pending
    ]
    else pending
offer_step root event pending invitation_accepted =
    remove_answered invitation_accepted event.payload pending
offer_step root event pending invitation_rejected =
    remove_answered invitation_rejected event.payload pending
offer_step root event pending invitation_expired =
    remove_answered invitation_expired event.payload pending
offer_step root event pending _ = pending

unfoldable pub offer_loop : PubKey → Offers → List Event → Offers
offer_loop root pending [] = pending
offer_loop root pending (event ∷ events) =
    offer_loop root (offer_step root event pending event.kind) events

abbrev pub offer_le : PendingOutgoingInvitationDelivery → PendingOutgoingInvitationDelivery → Bool
offer_le a b =
    number_then a.timestamp b.timestamp
      (bytes_then a.to_pubkey b.to_pubkey (bytes_le a.invitation_id b.invitation_id))

unfoldable pub pending_outgoing_invitation_deliveries_in_runtime :
    Runtime → List PendingOutgoingInvitationDelivery
pending_outgoing_invitation_deliveries_in_runtime none = []
pending_outgoing_invitation_deliveries_in_runtime (some capsule) =
    sort_by offer_le (map (λ e. e.1) (offer_loop capsule.pubkey [] capsule.ledger.events))
