-- ===== src/History/Concerns.antt =====
-- Which events concern a subject, read from what each event names: the invitation, the starters
-- and the public keys in its payload.
use hivra_app.Prelude.{
  ◌≡◌, refl, ◌∙◌, Bool, true, false, ◌||◌, Option, none, some, List, [], ◌∷◌, ◌++◌, ok, err, arith,
  any, to_option,
}
use mathlib.Core.Option
use hivra_app.Primitives.{Bytes, bytes_eq, option_eq}
use hivra_app.Events.{
  Event, EventKind, capsule_created, invitation_sent, invitation_received, invitation_accepted,
  invitation_rejected, invitation_expired, starter_created, starter_burned,
  relationship_established, relationship_broken,
}
use hivra_app.Payloads.{
  Parsed, InvitationSent, invitation_sent_from_bytes, InvitationAccepted,
  invitation_accepted_from_bytes, invitation_rejected_from_bytes, invitation_expired_from_bytes,
  starter_created_from_bytes, starter_burned_from_bytes, RelationshipEstablished,
  relationship_established_from_bytes, RelationshipBroken, relationship_broken_from_bytes,
}
use hivra_app.History.{
  HistorySubject, HistorySubjectKind, invitation, starter, relationship, HistorySummary, matches,
  sent_matches, accepted_matches, established_matches, broken_matches, then_summary, project_kind,
  project_event,
}

-- What an event names.
pub record Named : Type 0 where
  pub invitation_id : Option Bytes
  pub starter_ids : List Bytes
  pub keys : List Bytes

abbrev optional : Option Bytes → List Bytes
optional none = []
optional (some key) = key ∷ []

abbrev sent_names : InvitationSent → Named
sent_names p = record {
  invitation_id = some p.invitation_id;
  starter_ids = p.starter_id ∷ [];
  keys = p.to_pubkey ∷ optional p.sender_root_pubkey;
}

abbrev accepted_names : InvitationAccepted → Named
accepted_names p = record {
  invitation_id = some p.invitation_id;
  starter_ids = p.created_starter_id ∷ [];
  keys = p.from_pubkey ∷ optional p.accepter_root_pubkey;
}

abbrev only_invitation : Bytes → Named
only_invitation id = record { invitation_id = some id; starter_ids = []; keys = [] }

abbrev only_starter : Bytes → Named
only_starter id = record { invitation_id = none; starter_ids = id ∷ []; keys = [] }

abbrev established_names : RelationshipEstablished → Named
established_names p = record {
  invitation_id = some p.invitation_id;
  starter_ids = p.own_starter_id ∷ p.peer_starter_id ∷ p.sender_starter_id ∷ [];
  keys =
      p.peer_pubkey
      ∷ p.sender_pubkey
      ∷ (optional p.peer_root_pubkey ++ optional p.sender_root_pubkey);
}

abbrev broken_names : RelationshipBroken → Named
broken_names p = record {
  invitation_id = none;
  starter_ids = p.own_starter_id ∷ [];
  keys = p.peer_pubkey ∷ optional p.peer_root_pubkey;
}

-- A payload that does not parse names nothing.
abbrev pub named_by : Event → EventKind → Option Named
named_by event capsule_created = none
named_by event invitation_sent =
    Option.map sent_names (to_option (invitation_sent_from_bytes event.payload))
named_by event invitation_received =
    Option.map sent_names (to_option (invitation_sent_from_bytes event.payload))
named_by event invitation_accepted =
    Option.map accepted_names (to_option (invitation_accepted_from_bytes event.payload))
named_by event invitation_rejected =
    Option.map (λ p. only_invitation p.invitation_id)
      (to_option (invitation_rejected_from_bytes event.payload))
named_by event invitation_expired =
    Option.map (λ p. only_invitation p.invitation_id)
      (to_option (invitation_expired_from_bytes event.payload))
named_by event starter_created =
    Option.map (λ p. only_starter p.starter_id)
      (to_option (starter_created_from_bytes event.payload))
named_by event starter_burned =
    Option.map (λ p. only_starter p.starter_id)
      (to_option (starter_burned_from_bytes event.payload))
named_by event relationship_established =
    Option.map established_names (to_option (relationship_established_from_bytes event.payload))
named_by event relationship_broken =
    Option.map broken_names (to_option (relationship_broken_from_bytes event.payload))

abbrev is_id : Bytes → Option Bytes → Bool
is_id id none = false
is_id id (some other) = bytes_eq other id

-- An invitation is concerned by its id, a starter by any of the starters, and a relationship by
-- any of the keys, which is its primary or its secondary id.
abbrev names_as : HistorySubject → HistorySubjectKind → Named → Bool
names_as subject invitation named = is_id subject.primary_id named.invitation_id
names_as subject starter named = any (λ id. bytes_eq id subject.primary_id) named.starter_ids
names_as subject relationship named =
    any (λ key. bytes_eq subject.primary_id key || option_eq subject.secondary_id (some key))
      named.keys

abbrev names? : HistorySubject → Option Named → Bool
names? subject none = false
names? subject (some named) = names_as subject subject.kind named

abbrev pub concerns : Event → HistorySubject → Bool
concerns event subject = names? subject (named_by event event.kind)

abbrev pub is_some : Option HistorySummary → Bool
is_some none = false
is_some (some _) = true

bytes_eq_comm : (a b : Bytes) → bytes_eq a b ≡ bytes_eq b a
bytes_eq_comm a b = ground arith

module _ (subject : HistorySubject) where
  sent_lem :
      (p : InvitationSent) (kind : HistorySubjectKind)
      → sent_matches subject p kind ≡ names_as subject kind (sent_names p)
  unfolding any matches
  sent_lem p kind = ground arith

  accepted_lem :
      (p : InvitationAccepted) (kind : HistorySubjectKind)
      → accepted_matches subject p kind ≡ names_as subject kind (accepted_names p)
  unfolding any matches
  accepted_lem p kind = ground arith

  established_lem :
      (p : RelationshipEstablished) (kind : HistorySubjectKind)
      → established_matches subject p kind ≡ names_as subject kind (established_names p)
  unfolding any matches
  established_lem p kind = ground arith

  broken_lem :
      (p : RelationshipBroken) (kind : HistorySubjectKind)
      → broken_matches subject p kind ≡ names_as subject kind (broken_names p)
  unfolding any matches
  broken_lem p kind = ground (arith, bytes_eq_comm subject.primary_id p.own_starter_id)

  invitation_lem :
      (id : Bytes) (kind : HistorySubjectKind)
      → (elim kind [ invitation ↦ bytes_eq id subject.primary_id | _ ↦ false ])
        ≡ names_as subject kind (only_invitation id)
  unfolding any
  invitation_lem id kind = ground arith

  starter_lem :
      (id : Bytes) (kind : HistorySubjectKind)
      → (elim kind [ starter ↦ bytes_eq id subject.primary_id | _ ↦ false ])
        ≡ names_as subject kind (only_starter id)
  unfolding any
  starter_lem id kind = ground arith

  -- One kind of payload: there is a summary exactly if the names match.
  parsed_lem :
      {P : Type 0} (matching : P → Bool) (sum : P → HistorySummary) (named : P → Named)
      (parsed : Parsed P)
      → ((p : P) → matching p ≡ names_as subject subject.kind (named p))
      → is_some (elim parsed [ err _ ↦ none | ok p ↦ then_summary (matching p) (sum p) ])
        ≡ names? subject (Option.map named (to_option parsed))
  parsed_lem matching sum named (err _) h = refl
  parsed_lem matching sum named (ok p) h = decided (matching p) ∙ h p
    where
      decided : (b : Bool) → is_some (then_summary b (sum p)) ≡ b
      decided true = refl
      decided false = refl

  project_kind-concerns :
      (event : Event) (kind : EventKind)
      → is_some (project_kind kind event subject) ≡ names? subject (named_by event kind)
  project_kind-concerns event capsule_created = refl
  project_kind-concerns event invitation_sent =
      parsed_lem _ _ sent_names (invitation_sent_from_bytes event.payload)
        (λ p. sent_lem p subject.kind)
  project_kind-concerns event invitation_received =
      parsed_lem _ _ sent_names (invitation_sent_from_bytes event.payload)
        (λ p. sent_lem p subject.kind)
  project_kind-concerns event invitation_accepted =
      parsed_lem _ _ accepted_names (invitation_accepted_from_bytes event.payload)
        (λ p. accepted_lem p subject.kind)
  project_kind-concerns event invitation_rejected =
      parsed_lem _ _ (λ p. only_invitation p.invitation_id)
        (invitation_rejected_from_bytes event.payload)
        (λ p. invitation_lem p.invitation_id subject.kind)
  project_kind-concerns event invitation_expired =
      parsed_lem _ _ (λ p. only_invitation p.invitation_id)
        (invitation_expired_from_bytes event.payload)
        (λ p. invitation_lem p.invitation_id subject.kind)
  project_kind-concerns event starter_created =
      parsed_lem _ _ (λ p. only_starter p.starter_id) (starter_created_from_bytes event.payload)
        (λ p. starter_lem p.starter_id subject.kind)
  project_kind-concerns event starter_burned =
      parsed_lem _ _ (λ p. only_starter p.starter_id) (starter_burned_from_bytes event.payload)
        (λ p. starter_lem p.starter_id subject.kind)
  project_kind-concerns event relationship_established =
      parsed_lem _ _ established_names (relationship_established_from_bytes event.payload)
        (λ p. established_lem p subject.kind)
  project_kind-concerns event relationship_broken =
      parsed_lem _ _ broken_names (relationship_broken_from_bytes event.payload)
        (λ p. broken_lem p subject.kind)

pub project_event-concerns :
    (event : Event) (subject : HistorySubject)
    → is_some (project_event event subject) ≡ concerns event subject
unfolding project_event
project_event-concerns event subject = project_kind-concerns subject event event.kind
