-- ===== src/Pairs/Examples.antt =====
-- The pair view of a ledger with two relationships of one peer, one of another, and an offer.
use hivra_app.Prelude.{ℕ, ◌≡◌, ◌||◌, some, [], ◌∷◌, ◌++◌, any, Pairwise}
use hivra_app.Primitives.{Bytes, bytes_eq}
use hivra_app.Samples.{key, signed, ledger_of, created, offered}
use hivra_app.Events.{Event, relationship_established}
use hivra_app.Ledger.{Ledger}
use hivra_app.Invitations.Records.{invitations_with_status}
use hivra_app.Relationships.View.{relationship_current_view_v1}
use hivra_app.Pairs.{transport_identities, pair_view_v1}
use hivra_app.Pairs.Peers.{PeerBefore, PeerApart, relates_to, invites, pair_view_v1-peers}

abbrev related : ℕ → ℕ → Event
related peer at = signed 4 relationship_established (key peer ++ (key 3 ++ (key 6 ++ (2 ∷ [])))) at

abbrev peers_ledger : Ledger
peers_ledger = ledger_of (related 7 1 ∷ created ∷ offered ∷ related 8 3 ∷ related 7 4 ∷ [])

pair_view_v1-peers_example :
    let items = (pair_view_v1 peers_ledger (some (key 9))).pairs in
    let relationships = (relationship_current_view_v1 peers_ledger (some (key 9))).relationships in
    Pairwise PeerBefore items
    × Pairwise PeerApart items
    × ((peer : Bytes)
        → any (λ item. bytes_eq item.peer_identity peer) items ≡ (
            relates_to peer relationships
            || invites peers_ledger.owner
                (some (key 9))
                (transport_identities relationships)
                peer
                (invitations_with_status peers_ledger)))
pair_view_v1-peers_example = pair_view_v1-peers peers_ledger (some (key 9))
