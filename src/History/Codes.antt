-- ===== src/History/Codes.antt =====
-- The code of a history's entry is the name of its event's kind.
use hivra_app.Prelude.{◌≡◌, refl, ◌∙◌, Bool, true, false, none, some, ok, err, arith}
use hivra_app.Events.{
  Event, EventKind, capsule_created, invitation_sent, invitation_received, invitation_accepted,
  invitation_rejected, invitation_expired, starter_created, starter_burned,
  relationship_established, relationship_broken,
}
use hivra_app.Payloads.{
  Parsed, invitation_sent_from_bytes, invitation_accepted_from_bytes,
  invitation_rejected_from_bytes, invitation_expired_from_bytes, starter_created_from_bytes,
  starter_burned_from_bytes, relationship_established_from_bytes, relationship_broken_from_bytes,
}
use hivra_app.History.{HistorySubject, HistorySummary, then_summary, project_kind, project_event}
use Prim.Native.String.{String}

abbrev pub code_of : EventKind → String
code_of capsule_created = ""
code_of invitation_sent = "invitation_sent"
code_of invitation_received = "invitation_received"
code_of invitation_accepted = "invitation_accepted"
code_of invitation_rejected = "invitation_rejected"
code_of invitation_expired = "invitation_expired"
code_of starter_created = "starter_created"
code_of starter_burned = "starter_burned"
code_of relationship_established = "relationship_established"
code_of relationship_broken = "relationship_broken"

some_code : (b : Bool) (sum s : HistorySummary) → then_summary b sum ≡ some s → s.code ≡ sum.code
some_code true sum s h = ground arith
some_code false sum s h = ground arith

code_lem :
    {P : Type 0} (matching : P → Bool) (sum : P → HistorySummary) (code : String)
    (parsed : Parsed P) (s : HistorySummary)
    → ((p : P) → (sum p).code ≡ code)
    → (elim parsed [ err _ ↦ none | ok p ↦ then_summary (matching p) (sum p) ]) ≡ some s
    → s.code ≡ code
code_lem matching sum code (err _) s h e = ground arith
code_lem matching sum code (ok p) s h e = some_code (matching p) (sum p) s e ∙ h p

project_kind-code :
    (event : Event) (kind : EventKind) (subject : HistorySubject) (s : HistorySummary)
    → project_kind kind event subject ≡ some s
    → s.code ≡ code_of kind
project_kind-code event capsule_created subject s e = ground arith
project_kind-code event invitation_sent subject s e =
    code_lem _ _ "invitation_sent" (invitation_sent_from_bytes event.payload) s (λ p. refl) e
project_kind-code event invitation_received subject s e =
    code_lem _ _ "invitation_received" (invitation_sent_from_bytes event.payload) s (λ p. refl) e
project_kind-code event invitation_accepted subject s e =
    code_lem _ _ "invitation_accepted" (invitation_accepted_from_bytes event.payload) s (λ p. refl)
      e
project_kind-code event invitation_rejected subject s e =
    code_lem _ _ "invitation_rejected" (invitation_rejected_from_bytes event.payload) s (λ p. refl)
      e
project_kind-code event invitation_expired subject s e =
    code_lem _ _ "invitation_expired" (invitation_expired_from_bytes event.payload) s (λ p. refl) e
project_kind-code event starter_created subject s e =
    code_lem _ _ "starter_created" (starter_created_from_bytes event.payload) s (λ p. refl) e
project_kind-code event starter_burned subject s e =
    code_lem _ _ "starter_burned" (starter_burned_from_bytes event.payload) s (λ p. refl) e
project_kind-code event relationship_established subject s e =
    code_lem _ _ "relationship_established" (relationship_established_from_bytes event.payload) s
      (λ p. refl) e
project_kind-code event relationship_broken subject s e =
    code_lem _ _ "relationship_broken" (relationship_broken_from_bytes event.payload) s (λ p. refl)
      e

pub project_event-code :
    (event : Event) (subject : HistorySubject) (s : HistorySummary)
    → project_event event subject ≡ some s
    → s.code ≡ code_of event.kind
unfolding project_event
project_event-code event subject s e = project_kind-code event event.kind subject s e
