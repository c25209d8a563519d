-- ===== src/History.antt =====
-- core/hivra-core/src/history.rs: the part of the journal that concerns one subject.
pub mod Concerns
pub mod Codes
pub mod Entries
mod Examples
use hivra_app.Prelude.{
  ℕ, suc, Bool, true, false, ◌&&◌, ◌||◌, Option, none, some, List, [], ◌∷◌, ok, err, if◌then◌else◌,
  length,
}
use hivra_app.Primitives.{Bytes, bytes_eq, option_eq, Timestamp, kind_to_byte}
use hivra_app.Events.{
  Event, EventKind, capsule_created, invitation_sent, invitation_received, invitation_accepted,
  invitation_rejected, invitation_expired, starter_created, starter_burned,
  relationship_established, relationship_broken,
}
use hivra_app.Payloads.{
  Parsed, InvitationSent, invitation_sent_from_bytes, InvitationAccepted,
  invitation_accepted_from_bytes, invitation_rejected_from_bytes, invitation_expired_from_bytes,
  starter_created_from_bytes, starter_burned_from_bytes, RelationshipEstablished,
  relationship_established_from_bytes, RelationshipBroken, relationship_broken_from_bytes,
  reason_to_byte,
}
use hivra_app.Ledger.{Ledger}
use Prim.Native.String.{String}

pub data HistorySubjectKind : Type 0 where
  invitation starter relationship : HistorySubjectKind

pub record HistorySubject : Type 0 where
  pub kind : HistorySubjectKind
  pub primary_id : Bytes
  pub secondary_id : Option Bytes

pub record HistorySummary : Type 0 where
  pub code : String
  pub ids : List Bytes
  pub starter_kind : Option ℕ
  pub reason : Option ℕ

pub record HistoryEntry : Type 0 where
  pub ledger_index : ℕ
  pub event_kind : EventKind
  pub timestamp : Timestamp
  pub summary_code : String
  pub summary_ids : List Bytes
  pub starter_kind : Option ℕ
  pub reason : Option ℕ

pub record HistoryView : Type 0 where
  pub schema : String
  pub version : ℕ
  pub ledger_version : ℕ
  pub subject : HistorySubject
  pub entries : List HistoryEntry

unfoldable pub matches : HistorySubject → Bytes → Bool
matches subject value =
    bytes_eq subject.primary_id value || option_eq subject.secondary_id (some value)

abbrev pub matches? : HistorySubject → Option Bytes → Bool
matches? subject none = false
matches? subject (some value) = matches subject value

abbrev pub then_summary : Bool → HistorySummary → Option HistorySummary
then_summary true summary = some summary
then_summary false summary = none

abbrev pub sent_matches : HistorySubject → InvitationSent → HistorySubjectKind → Bool
sent_matches subject p invitation = bytes_eq p.invitation_id subject.primary_id
sent_matches subject p starter = bytes_eq p.starter_id subject.primary_id
sent_matches subject p relationship =
    matches subject p.to_pubkey || matches? subject p.sender_root_pubkey

abbrev pub accepted_matches : HistorySubject → InvitationAccepted → HistorySubjectKind → Bool
accepted_matches subject p invitation = bytes_eq p.invitation_id subject.primary_id
accepted_matches subject p starter = bytes_eq p.created_starter_id subject.primary_id
accepted_matches subject p relationship =
    matches subject p.from_pubkey || matches? subject p.accepter_root_pubkey

abbrev pub established_matches :
    HistorySubject → RelationshipEstablished → HistorySubjectKind → Bool
established_matches subject p invitation = bytes_eq p.invitation_id subject.primary_id
established_matches subject p starter =
    bytes_eq subject.primary_id p.own_starter_id
    || (bytes_eq subject.primary_id p.peer_starter_id
        || bytes_eq subject.primary_id p.sender_starter_id)
established_matches subject p relationship =
    matches subject p.peer_pubkey
    || (matches subject p.sender_pubkey
        || (matches? subject p.peer_root_pubkey || matches? subject p.sender_root_pubkey))

abbrev pub broken_matches : HistorySubject → RelationshipBroken → HistorySubjectKind → Bool
broken_matches subject p invitation = false
broken_matches subject p starter = bytes_eq subject.primary_id p.own_starter_id
broken_matches subject p relationship =
    matches subject p.peer_pubkey || matches? subject p.peer_root_pubkey

abbrev pub is_invitation : HistorySubject → Bytes → Bool
is_invitation subject id = elim subject.kind [
  | invitation ↦ bytes_eq id subject.primary_id
  | _ ↦ false
]

abbrev pub is_starter : HistorySubject → Bytes → Bool
is_starter subject id = elim subject.kind [ starter ↦ bytes_eq id subject.primary_id | _ ↦ false ]

abbrev pub summary : String → List Bytes → Option ℕ → Option ℕ → HistorySummary
summary code ids starter_kind reason = record {
  code = code;
  ids = ids;
  starter_kind = starter_kind;
  reason = reason;
}

abbrev pub project_sent : String → Event → HistorySubject → Option HistorySummary
project_sent code event subject = elim (invitation_sent_from_bytes event.payload) [
  | err _ ↦ none
  | ok p ↦
      then_summary (sent_matches subject p subject.kind)
        (summary code (p.invitation_id ∷ p.starter_id ∷ []) none none)
]

-- `project_event`, by the kind of the event.
abbrev pub project_kind : EventKind → Event → HistorySubject → Option HistorySummary
project_kind invitation_sent event subject = project_sent "invitation_sent" event subject
project_kind invitation_received event subject = project_sent "invitation_received" event subject
project_kind invitation_accepted event subject =
    elim (invitation_accepted_from_bytes event.payload) [
      | err _ ↦ none
      | ok p ↦
          then_summary (accepted_matches subject p subject.kind)
            (summary "invitation_accepted" (p.invitation_id ∷ p.created_starter_id ∷ []) none none)
    ]
project_kind invitation_rejected event subject =
    elim (invitation_rejected_from_bytes event.payload) [
      | err _ ↦ none
      | ok p ↦ then_summary (is_invitation subject p.invitation_id) (
          summary "invitation_rejected" (p.invitation_id ∷ []) none
            (some (reason_to_byte p.reason)))
    ]
project_kind invitation_expired event subject = elim (invitation_expired_from_bytes event.payload) [
  | err _ ↦ none
  | ok p ↦
      then_summary (is_invitation subject p.invitation_id)
        (summary "invitation_expired" (p.invitation_id ∷ []) none none)
]
project_kind starter_created event subject = elim (starter_created_from_bytes event.payload) [
  | err _ ↦ none
  | ok p ↦
      then_summary (is_starter subject p.starter_id)
        (summary "starter_created" (p.starter_id ∷ []) (some (kind_to_byte p.kind)) none)
]
project_kind starter_burned event subject = elim (starter_burned_from_bytes event.payload) [
  | err _ ↦ none
  | ok p ↦
      then_summary (is_starter subject p.starter_id)
        (summary "starter_burned" (p.starter_id ∷ []) none (some p.reason))
]
project_kind relationship_established event subject =
    elim (relationship_established_from_bytes event.payload) [
      | err _ ↦ none
      | ok p ↦ then_summary (established_matches subject p subject.kind) (
          summary "relationship_established" (p.peer_pubkey ∷ []) (some (kind_to_byte p.kind)) none)
    ]
project_kind relationship_broken event subject =
    elim (relationship_broken_from_bytes event.payload) [
      | err _ ↦ none
      | ok p ↦
          then_summary (broken_matches subject p subject.kind)
            (summary "relationship_broken" (p.peer_pubkey ∷ []) none none)
    ]
project_kind capsule_created event subject = none

unfoldable pub project_event : Event → HistorySubject → Option HistorySummary
project_event event subject = project_kind event.kind event subject

abbrev pub entry_of : ℕ → Event → HistorySummary → HistoryEntry
entry_of ledger_index event s = record {
  ledger_index = ledger_index;
  event_kind = event.kind;
  timestamp = event.timestamp;
  summary_code = s.code;
  summary_ids = s.ids;
  starter_kind = s.starter_kind;
  reason = s.reason;
}

-- One round of `filter_map`.
abbrev pub add_entry : ℕ → Event → Option HistorySummary → List HistoryEntry → List HistoryEntry
add_entry index event none rest = rest
add_entry index event (some s) rest = entry_of index event s ∷ rest

-- `enumerate` and `filter_map`, from an index on.
unfoldable pub entries_from : ℕ → List Event → HistorySubject → List HistoryEntry
entries_from index [] subject = []
entries_from index (event ∷ events) subject =
    add_entry index event (project_event event subject) (entries_from (suc index) events subject)

unfoldable pub history_view_v1 : Ledger → HistorySubject → HistoryView
history_view_v1 ledger subject = record {
  schema = "hivra.history_view";
  version = 1;
  ledger_version = length ledger.events;
  subject = subject;
  entries = entries_from 0 ledger.events subject;
}
