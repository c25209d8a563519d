-- ===== src/Ledger/Journal.antt =====
-- Appending to a v4 ledger.
use hivra_app.Prelude.{
  ℕ, ◌≡◌, ◌≢◌, ◌↔◌, ◌≤◌, inl, inr, refl, sym, ap, ◌∙◌, false, none, List, [], ◌∷◌, ◌++◌, ok, arith,
  get_last?, All, Pairwise, All-append, All-append_parts, All-both, All-first, All-second,
  All-get_last?, Pairwise-append_one, Pairwise-append_one_parts, foldl-append_one, any,
  Option-cases,
}
use hivra_app.Events.{Event, event_eq, protocol_version}
use hivra_app.Ledger.{Ledger, advance_hash, append, out_of_order}
use hivra_app.Ledger.Checksum.{Follows, IsHistoryV4, any_none}

-- In a valid history the last event bounds all times.
times_bounded :
    (events : List Event) (e : Event)
    → Pairwise Follows events
    → out_of_order (get_last? events) e ≡ false
    → All (λ d. d.timestamp ≤ e.timestamp) events
times_bounded [] e h k = tt
times_bounded (d ∷ []) e h k = (ground arith, tt)
times_bounded (d ∷ d' ∷ events) e h k =
    let ih = times_bounded (d' ∷ events) e h.1 k in (omega (arith, h.0.0.1, ih.0), ih)

in_order :
    (events : List Event) (e : Event)
    → All (λ d. d.timestamp ≤ e.timestamp) events
    → out_of_order (get_last? events) e ≡ false
in_order events e h = elim (Option-cases (get_last? events)) [
  | inl p ↦ rw p
  | inr (d, p) ↦ rw p (ground (arith, All-get_last? (λ d. d.timestamp ≤ e.timestamp) events d h p))
]

-- What `append` demands of an event on a ledger without receipts.
record Appendable (l : Ledger) (e : Event) : Type 0 where
  version_ok : e.version ≡ protocol_version
  unseen : All (λ s. s ≢ e) l.events
  in_time : All (λ d. d.timestamp ≤ e.timestamp) l.events

appended : Ledger → Event → Ledger
appended l e = record l { last_hash = advance_hash l.last_hash e; events = l.events ++ (e ∷ []) }

append_tests :
    (l : Ledger) (e : Event)
    → l.continuity_v5 ≡ none
    → ((append l e).1 ≡ ok tt) ↔ (
        (e.version ≡ protocol_version)
        × (any (λ s. event_eq s e) l.events ≡ false)
        × (out_of_order (get_last? l.events) e ≡ false))
unfolding append
append_tests l e h = ground arith

append_accepts :
    (l : Ledger) (e : Event)
    → l.continuity_v5 ≡ none
    → Pairwise Follows l.events
    → ((append l e).1 ≡ ok tt) ↔ Appendable l e
append_accepts l e h k = (
  λ r.
      let (v, d, o) = (append_tests l e h).0 r in
      record {
        version_ok = v;
        unseen = (any_none l.events e).0 d;
        in_time = times_bounded l.events e k o;
      },
  λ a.
      (append_tests l e h).1
        (a.version_ok, (any_none l.events e).1 a.unseen, in_order l.events e a.in_time),
)

append_refused : (l : Ledger) (e : Event) → (append l e).1 ≢ ok tt → (append l e).0 ≡ l
unfolding append
append_refused l e h = ground arith

append_result : (l : Ledger) (e : Event) → (append l e).1 ≡ ok tt → (append l e).0 ≡ appended l e
unfolding append appended
append_result l e h = ground arith

Appendable-IsHistoryV4 :
    (l : Ledger) (e : Event)
    → IsHistoryV4 l.events l.last_hash
    → Appendable l e
    → IsHistoryV4 (l.events ++ (e ∷ [])) (advance_hash l.last_hash e)
Appendable-IsHistoryV4 l e h a = record {
  versions = All-append _ l.events (e ∷ []) h.versions (a.version_ok, tt);
  ordered =
      Pairwise-append_one Follows l.events e h.ordered (All-both _ _ l.events a.unseen a.in_time);
  checksum =
      ap (λ k. advance_hash k e) h.checksum ∙ sym (foldl-append_one advance_hash 0 l.events e);
}

IsHistoryV4-Appendable :
    (l : Ledger) (e : Event) (hash : ℕ) → IsHistoryV4 (l.events ++ (e ∷ [])) hash → Appendable l e
IsHistoryV4-Appendable l e hash h =
    let (rest, lasts) = Pairwise-append_one_parts Follows l.events e h.ordered in
    record {
      version_ok = (All-append_parts _ l.events (e ∷ []) h.versions).1.0;
      unseen = All-first _ _ l.events lasts;
      in_time = All-second _ _ l.events lasts;
    }

-- On a valid v4 ledger `append` takes an event exactly when the journal with the event at its end
-- is valid again; it then stores the event and the advanced checksum, which verify, and else it
-- leaves the ledger as it was.
pub append-exact :
    (l : Ledger) (e : Event)
    → l.continuity_v5 ≡ none
    → IsHistoryV4 l.events l.last_hash
    → (((append l e).1 ≡ ok tt) ↔ IsHistoryV4 (l.events ++ (e ∷ [])) (advance_hash l.last_hash e))
      × ((append l e).1 ≡ ok tt
          → ((append l e).0.events ≡ l.events ++ (e ∷ []))
            × IsHistoryV4 (append l e).0.events (append l e).0.last_hash)
      × ((append l e).1 ≢ ok tt → (append l e).0 ≡ l)
append-exact l e h v = (
  (
    λ r. Appendable-IsHistoryV4 l e v ((append_accepts l e h v.ordered).0 r),
    λ w. (append_accepts l e h v.ordered).1 (IsHistoryV4-Appendable l e _ w),
  ),
  λ r. rw (append_result l e r) (
      unfold appended in
      (refl, Appendable-IsHistoryV4 l e v ((append_accepts l e h v.ordered).0 r))),
  append_refused l e,
)
