-- ===== src/History/Examples.antt =====
-- The history of a starter that is created, offered and whose offer is called back.
use hivra_app.Prelude.{ℕ, ◌≡◌, true, none, some, All, Pairwise, get_elem?}
use hivra_app.Events.{Event}
use hivra_app.History.{HistorySubject, HistoryEntry, starter, history_view_v1}
use hivra_app.History.Concerns.{concerns}
use hivra_app.History.Entries.{TellsOf, Earlier, IsListed, history_view_v1-exact}
use hivra_app.Samples.{key, offering}

abbrev of_starter : HistorySubject
of_starter = record { kind = starter; primary_id = key 3; secondary_id = none }

history_view_v1-exact_example :
    let entries = (history_view_v1 offering of_starter).entries in
    All (TellsOf offering.events of_starter) entries
    × Pairwise Earlier entries
    × ((i : ℕ) (event : Event)
        → get_elem? offering.events i ≡ some event
        → concerns event of_starter ≡ true
        → (entry : HistoryEntry) × (entry.ledger_index ≡ i) × IsListed entry entries)
history_view_v1-exact_example = history_view_v1-exact offering of_starter
