-- ===== src/Ledger/AppendOnly.antt =====
-- The journal only grows.
use hivra_app.Prelude.{◌≡◌, ◌⊎◌, inl, inr, refl, sym, ◌∙◌, ap, List, [], ◌∷◌, ◌++◌, ok, arith}
use hivra_app.Primitives.{Bytes}
use hivra_app.Events.{Event}
use hivra_app.LedgerV5.{LedgerEntryV5, LedgerAnchorV5}
use hivra_app.Ledger.{Ledger, append, append_v5, migrate_v4}
use hivra_app.Ledger.Reachable.{Step, appended, appended_v5, migrated, Reach, here, next}
use mathlib.Core.List.{append-nil, append_assoc}

-- What a later ledger keeps of an earlier one.
abbrev pub Extends : Ledger → Ledger → Type 0
Extends l m = (rest : List Event) × (m.owner ≡ l.owner) × (m.events ≡ l.events ++ rest)

-- The owner is kept, and the events are the same or one more.
abbrev Grows : Ledger → Ledger → Event → Type 0
Grows l m e = (m.owner ≡ l.owner) × ((m.events ≡ l.events) ⊎ (m.events ≡ l.events ++ (e ∷ [])))

append-Grows : (l : Ledger) (e : Event) → Grows l (append l e).0 e
unfolding append
append-Grows l e = ground arith

Grows-Extends : (l m : Ledger) (e : Event) → Grows l m e → Extends l m
Grows-Extends l m e (owned, inl same_events) = ([], owned, same_events ∙ sym (append-nil l.events))
Grows-Extends l m e (owned, inr one_more) = (e ∷ [], owned, one_more)

module _ (sha256 : Bytes → Bytes) where
  append_v5-Grows :
      (l : Ledger) (entry : LedgerEntryV5) → Grows l (append_v5 sha256 l entry).0 entry.event
  unfolding append_v5
  append_v5-Grows l entry = ground arith

  migrate_v4_keeps :
      (l m : Ledger) (anchor : LedgerAnchorV5)
      → migrate_v4 sha256 l anchor ≡ ok m
      → (m.owner ≡ l.owner) × (m.events ≡ l.events)
  unfolding migrate_v4
  migrate_v4_keeps l m anchor e = ground arith

  Step-Extends : {l m : Ledger} → Step sha256 l m → Extends l m
  Step-Extends {l} (appended e) = Grows-Extends l (append l e).0 e (append-Grows l e)
  Step-Extends {l} (appended_v5 entry) =
      Grows-Extends l (append_v5 sha256 l entry).0 entry.event (append_v5-Grows l entry)
  Step-Extends {l} {m} (migrated anchor e) =
      let (owned, kept) = migrate_v4_keeps l m anchor e in
      ([], owned, kept ∙ sym (append-nil l.events))

  -- However a ledger is built further, its owner stays and its events stay in place: later
  -- ledgers only have more events at the end.
  pub Reach-Extends : {l m : Ledger} → Reach sha256 l m → Extends l m
  Reach-Extends {l} here = ([], refl, sym (append-nil l.events))
  Reach-Extends {l} (next r st) =
      let (front, owned, grown) = Reach-Extends r in
      let (back, owned', grown') = Step-Extends st in
      (
        front ++ back,
        owned' ∙ owned,
        grown' ∙ ap (λ es. es ++ back) grown ∙ append_assoc l.events front back,
      )
