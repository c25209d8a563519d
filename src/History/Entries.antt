-- ===== src/History/Entries.antt =====
-- Which entries a history has, and in which order.
use hivra_app.Prelude.{
  ℕ, true, zero, suc, ◌+◌, ◌-◌, ◌≤◌, ◌<◌, ◌≡◌, refl, ap, sym, ◌∙◌, subst, Option, none, some, List,
  [], ◌∷◌, arith, All, Pairwise, get_elem?,
}
use hivra_app.Events.{Event}
use hivra_app.History.Codes.{code_of, project_event-code}
use hivra_app.History.Concerns.{concerns, is_some, project_event-concerns}
use hivra_app.Ledger.{Ledger}
use hivra_app.History.{
  HistorySubject, HistorySummary, HistoryEntry, project_event, entry_of, entries_from,
  history_view_v1, add_entry,
}

-- The entry is the summary of the event at its place, counted from `start`.
abbrev IsEntryOf : ℕ → List Event → HistorySubject → HistoryEntry → Type 0
IsEntryOf start events subject entry =
    (event : Event) × (summary : HistorySummary) × (start ≤ entry.ledger_index)
    × (get_elem? events (entry.ledger_index - start) ≡ some event)
    × (project_event event subject ≡ some summary)
    × (entry ≡ entry_of entry.ledger_index event summary)

abbrev pub Earlier : HistoryEntry → HistoryEntry → Type 0
Earlier a b = a.ledger_index < b.ledger_index

later-IsEntryOf :
    (start : ℕ) (event : Event) (events : List Event) (subject : HistorySubject)
    (entry : HistoryEntry)
    → IsEntryOf (suc start) events subject entry
    → IsEntryOf start (event ∷ events) subject entry
later-IsEntryOf start event events subject entry (found, summary, from, at, projected, shape) =
    let shift : entry.ledger_index - start ≡ suc (entry.ledger_index - suc start) = omega arith in
    (found, summary, omega arith, rw shift at, projected, shape)

first-IsEntryOf :
    (start : ℕ) (event : Event) (events : List Event) (subject : HistorySubject)
    (summary : HistorySummary)
    → project_event event subject ≡ some summary
    → IsEntryOf start (event ∷ events) subject (entry_of start event summary)
first-IsEntryOf start event events subject summary e =
    let here : start - start ≡ 0 = omega arith in
    (event, summary, omega arith, rw here refl, e, refl)

All-later :
    (start : ℕ) (event : Event) (events : List Event) (subject : HistorySubject)
    (entries : List HistoryEntry)
    → All (IsEntryOf (suc start) events subject) entries
    → All (IsEntryOf start (event ∷ events) subject) entries
All-later start event events subject [] h = tt
All-later start event events subject (x ∷ entries) (now, later) = (
  later-IsEntryOf start event events subject x now,
  All-later start event events subject entries later,
)

add_entry_sound :
    (start : ℕ) (event : Event) (events : List Event) (subject : HistorySubject)
    (o : Option HistorySummary) (rest : List HistoryEntry)
    → project_event event subject ≡ o
    → All (IsEntryOf (suc start) events subject) rest
    → All (IsEntryOf start (event ∷ events) subject) (add_entry start event o rest)
add_entry_sound start event events subject none rest e h =
    All-later start event events subject rest h
add_entry_sound start event events subject (some summary) rest e h = (
  first-IsEntryOf start event events subject summary e,
  All-later start event events subject rest h,
)

entries_from_sound :
    (start : ℕ) (events : List Event) (subject : HistorySubject)
    → All (IsEntryOf start events subject) (entries_from start events subject)
unfolding entries_from
entries_from_sound start [] subject = tt
entries_from_sound start (event ∷ events) subject =
    add_entry_sound start event events subject (project_event event subject)
      (entries_from (suc start) events subject) refl (entries_from_sound (suc start) events subject)

All-Earlier :
    (start : ℕ) (event : Event) (summary : HistorySummary) (events : List Event)
    (subject : HistorySubject) (entries : List HistoryEntry)
    → All (IsEntryOf (suc start) events subject) entries
    → All (Earlier (entry_of start event summary)) entries
All-Earlier start event summary events subject [] h = tt
All-Earlier start event summary events subject (x ∷ entries) (now, later) =
    let (_, _, from, _, _, _) = now in
    (omega (arith, from), All-Earlier start event summary events subject entries later)

add_entry-Earlier :
    (start : ℕ) (event : Event) (events : List Event) (subject : HistorySubject)
    (o : Option HistorySummary) (rest : List HistoryEntry)
    → All (IsEntryOf (suc start) events subject) rest
    → Pairwise Earlier rest
    → Pairwise Earlier (add_entry start event o rest)
add_entry-Earlier start event events subject none rest h k = k
add_entry-Earlier start event events subject (some summary) rest h k =
    (All-Earlier start event summary events subject rest h, k)

entries_from-Earlier :
    (start : ℕ) (events : List Event) (subject : HistorySubject)
    → Pairwise Earlier (entries_from start events subject)
unfolding entries_from
entries_from-Earlier start [] subject = tt
entries_from-Earlier start (event ∷ events) subject =
    add_entry-Earlier start event events subject (project_event event subject)
      (entries_from (suc start) events subject) (entries_from_sound (suc start) events subject)
      (entries_from-Earlier (suc start) events subject)

-- The entry is somewhere in the list.
abbrev pub IsListed : HistoryEntry → List HistoryEntry → Type 0
IsListed entry entries = (j : ℕ) × (get_elem? entries j ≡ some entry)

add_entry-IsListed :
    (start : ℕ) (event : Event) (o : Option HistorySummary) (rest : List HistoryEntry)
    (entry : HistoryEntry)
    → IsListed entry rest
    → IsListed entry (add_entry start event o rest)
add_entry-IsListed start event none rest entry h = h
add_entry-IsListed start event (some s) rest entry (j, found) = (suc j, found)

entries_from_complete :
    (start : ℕ) (events : List Event) (subject : HistorySubject) (i : ℕ) (event : Event)
    (summary : HistorySummary)
    → get_elem? events i ≡ some event
    → project_event event subject ≡ some summary
    → IsListed (entry_of (start + i) event summary) (entries_from start events subject)
unfolding entries_from
entries_from_complete start [] subject i event summary at e = ground arith
entries_from_complete start (x ∷ events) subject zero event summary at e = (0, shown)
  where
    same_event : x ≡ event
    same_event = ground arith

    this : project_event x subject ≡ some summary
    this = subst (λ y. project_event y subject ≡ some summary) (sym same_event) e

    shown :
        get_elem?
          (add_entry start x (project_event x subject) (entries_from (suc start) events subject))
          0
        ≡ some (entry_of (start + 0) event summary)
    shown =
        ap (λ o. get_elem? (add_entry start x o (entries_from (suc start) events subject)) 0) this
        ∙ ap (λ y. some (entry_of start y summary)) same_event
        ∙ ap (λ n. some (entry_of n event summary)) (omega arith)
entries_from_complete start (x ∷ events) subject (suc i) event summary at e =
    let index : start + suc i ≡ suc start + i = omega arith in
    subst (λ n. IsListed (entry_of n event summary) (entries_from start (x ∷ events) subject))
      (sym index)
      (add_entry-IsListed start x (project_event x subject)
        (entries_from (suc start) events subject) (entry_of (suc start + i) event summary)
        (entries_from_complete (suc start) events subject i event summary at e))

-- The entry tells of an event of the ledger that concerns the subject.
abbrev pub TellsOf : List Event → HistorySubject → HistoryEntry → Type 0
TellsOf events subject entry =
    (event : Event) × (get_elem? events entry.ledger_index ≡ some event)
    × (concerns event subject ≡ true)
    × (entry.event_kind ≡ event.kind)
    × (entry.timestamp ≡ event.timestamp)
    × (entry.summary_code ≡ code_of event.kind)

tells_of :
    (events : List Event) (subject : HistorySubject) (entry : HistoryEntry)
    → IsEntryOf 0 events subject entry
    → TellsOf events subject entry
tells_of events subject entry (event, s, _, at, projected, shape) = (
  event,
  ap (get_elem? events) here ∙ at,
  sym (project_event-concerns event subject) ∙ ap is_some projected,
  ap (λ e. e.event_kind) shape,
  ap (λ e. e.timestamp) shape,
  ap (λ e. e.summary_code) shape ∙ project_event-code event subject s projected,
)
  where
    here : entry.ledger_index ≡ entry.ledger_index - 0
    here = omega arith

All-TellsOf :
    (events : List Event) (subject : HistorySubject) (entries : List HistoryEntry)
    → All (IsEntryOf 0 events subject) entries
    → All (TellsOf events subject) entries
All-TellsOf events subject [] h = tt
All-TellsOf events subject (x ∷ entries) (now, later) =
    (tells_of events subject x now, All-TellsOf events subject entries later)

listed :
    (events : List Event) (subject : HistorySubject) (i : ℕ) (event : Event)
    → get_elem? events i ≡ some event
    → concerns event subject ≡ true
    → (entry : HistoryEntry) × (entry.ledger_index ≡ i)
      × IsListed entry (entries_from 0 events subject)
listed events subject i event at about =
    shown (project_event event subject) refl (project_event-concerns event subject ∙ about)
  where
    shown :
        (o : Option HistorySummary)
        → project_event event subject ≡ o
        → is_some o ≡ true
        → (entry : HistoryEntry) × (entry.ledger_index ≡ i)
          × IsListed entry (entries_from 0 events subject)
    shown none e h = absurd (ground arith)
    shown (some s) e h = (
      entry_of (0 + i) event s,
      omega arith,
      entries_from_complete 0 events subject i event s at e,
    )

-- The entries of a history are, in the order of the ledger, exactly the events that concern the
-- subject. For an invitation these are the events whose payload names its id, for a starter those
-- whose payload names it as one of its starters, and for a relationship those whose payload names
-- one of its two keys; a payload that does not parse names nothing. Every entry has the index, the
-- kind and the time of its event, and the code of that kind; the indices grow; and every event
-- that concerns the subject has its entry.
pub history_view_v1-exact :
    (ledger : Ledger) (subject : HistorySubject)
    → let entries = (history_view_v1 ledger subject).entries in
      All (TellsOf ledger.events subject) entries
      × Pairwise Earlier entries
      × ((i : ℕ) (event : Event)
          → get_elem? ledger.events i ≡ some event
          → concerns event subject ≡ true
          → (entry : HistoryEntry) × (entry.ledger_index ≡ i) × IsListed entry entries)
unfolding history_view_v1
history_view_v1-exact ledger subject = (
  All-TellsOf ledger.events subject (entries_from 0 ledger.events subject)
      (entries_from_sound 0 ledger.events subject),
  entries_from-Earlier 0 ledger.events subject,
  listed ledger.events subject,
)
