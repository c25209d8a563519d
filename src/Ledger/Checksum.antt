-- ===== src/Ledger/Checksum.antt =====
-- The v4 ledger: what its verification says of the events, and that appending keeps it.
use hivra_app.Prelude.{
  ℕ, ◌≡◌, ◌≢◌, ◌↔◌, ◌≤◌, refl, sym, ◌∙◌, true, false, Option, none, some, List, [], ◌∷◌, ◌++◌,
  arith, All, Pairwise, All-append, All-append_parts, All-mono, All-both, All-first, All-second,
  any,
}
use hivra_app.Primitives.{Timestamp}
use hivra_app.Events.{Event, event_eq, protocol_version}
use hivra_app.Ledger.{verify_v4_loop, verify_v4_events, advance_hash, is_before}
use mathlib.Core.List.{foldl}

-- An event is later in the journal than another: a different event, at no earlier time.
abbrev pub Follows : Event → Event → Type 0
Follows d e = (d ≢ e) × (d.timestamp ≤ e.timestamp)

-- A valid v4 history: its events are of version 4, all different, in the order of their times,
-- and the checksum is the fold over them.
pub record IsHistoryV4 (events : List Event) (hash : ℕ) : Type 0 where
  pub versions : All (λ e. e.version ≡ protocol_version) events
  pub ordered : Pairwise Follows events
  pub checksum : hash ≡ foldl advance_hash 0 events

abbrev NotBefore : Option Timestamp → Event → Type 0
NotBefore none e = Unit
NotBefore (some t) e = t ≤ e.timestamp

-- What the loop checks of the events still to come.
record LoopAccepts (seen : List Event) (last_ts : Option Timestamp) (hash : ℕ) (events : List Event)
    (expected : ℕ) : Type 0 where
  versions : All (λ e. e.version ≡ protocol_version) events
  fresh : All (λ e. All (λ s. s ≢ e) seen) events
  later : All (NotBefore last_ts) events
  ordered : Pairwise Follows events
  checksum : expected ≡ foldl advance_hash hash events

pub any_none :
    (seen : List Event) (e : Event) → (any (λ s. event_eq s e) seen ≡ false) ↔ All (λ s. s ≢ e) seen
unfolding any
any_none [] e = (λ _. tt, λ _. refl)
any_none (s ∷ seen) e = ground (arith, any_none seen e)

-- Moving the first event from the list to the seen ones.
step_fresh :
    (seen : List Event) (d : Event) (events : List Event)
    → All (λ e. All (λ s. s ≢ e) (seen ++ (d ∷ []))) events
    → All (λ e. All (λ s. s ≢ e) seen) events × All (λ e. d ≢ e) events
step_fresh seen d [] h = (tt, tt)
step_fresh seen d (e ∷ events) h =
    let (front, back) = All-append_parts (λ s. s ≢ e) seen (d ∷ []) h.0 in
    let (fronts, backs) = step_fresh seen d events h.1 in ((front, fronts), (back.0, backs))

unstep_fresh :
    (seen : List Event) (d : Event) (events : List Event)
    → All (λ e. All (λ s. s ≢ e) seen) events
    → All (λ e. d ≢ e) events
    → All (λ e. All (λ s. s ≢ e) (seen ++ (d ∷ []))) events
unstep_fresh seen d [] h k = tt
unstep_fresh seen d (e ∷ events) h k =
    (All-append (λ s. s ≢ e) seen (d ∷ []) h.0 (k.0, tt), unstep_fresh seen d events h.1 k.1)

NotBefore-trans :
    (last_ts : Option Timestamp) (d e : Event)
    → NotBefore last_ts d
    → d.timestamp ≤ e.timestamp
    → NotBefore last_ts e
NotBefore-trans none d e h k = tt
NotBefore-trans (some t) d e h k = omega arith

not_before :
    (last_ts : Option Timestamp) (e : Event)
    → (is_before e.timestamp last_ts ≡ false) ↔ NotBefore last_ts e
not_before none e = (λ _. tt, λ _. refl)
not_before (some t) e = ground arith

-- One round of the loop: its three tests pass.
record RoundAccepts (seen : List Event) (last_ts : Option Timestamp) (e : Event) : Type 0 where
  version_ok : e.version ≡ protocol_version
  unseen : All (λ s. s ≢ e) seen
  in_order : NotBefore last_ts e

loop_round :
    (seen : List Event) (last_ts : Option Timestamp) (hash : ℕ) (e : Event) (events : List Event)
    (expected : ℕ)
    → RoundAccepts seen last_ts e
    → verify_v4_loop seen last_ts hash (e ∷ events) expected
      ≡ verify_v4_loop (seen ++ (e ∷ [])) (some e.timestamp) (advance_hash hash e) events expected
unfolding verify_v4_loop
loop_round seen last_ts hash e events expected r =
    rw ((any_none seen e).1 r.unseen, (not_before last_ts e).1 r.in_order) (ground arith)

loop-round-accepts :
    (seen : List Event) (last_ts : Option Timestamp) (hash : ℕ) (e : Event) (events : List Event)
    (expected : ℕ)
    → verify_v4_loop seen last_ts hash (e ∷ events) expected ≡ true
    → RoundAccepts seen last_ts e
unfolding verify_v4_loop
loop-round-accepts seen last_ts hash e events expected h = record {
  version_ok = ground arith;
  unseen = (any_none seen e).0 (ground arith);
  in_order = (not_before last_ts e).0 (ground arith);
}

loop-LoopAccepts :
    (seen : List Event) (last_ts : Option Timestamp) (hash : ℕ) (events : List Event) (expected : ℕ)
    → verify_v4_loop seen last_ts hash events expected ≡ true
    → LoopAccepts seen last_ts hash events expected
loop-LoopAccepts seen last_ts hash [] expected h =
    unfold verify_v4_loop in
    record { versions = tt; fresh = tt; later = tt; ordered = tt; checksum = ground arith }
loop-LoopAccepts seen last_ts hash (e ∷ events) expected h =
    let r = loop-round-accepts seen last_ts hash e events expected h in
    let ih =
      loop-LoopAccepts (seen ++ (e ∷ [])) (some e.timestamp) (advance_hash hash e) events expected
        (sym (loop_round seen last_ts hash e events expected r) ∙ h) in
    let (unseen, different) = step_fresh seen e events ih.fresh in
    record {
      versions = (r.version_ok, ih.versions);
      fresh = (r.unseen, unseen);
      later =
          (r.in_order, All-mono _ _ events (λ x. NotBefore-trans last_ts e x r.in_order) ih.later);
      ordered = (All-both _ _ events different ih.later, ih.ordered);
      checksum = ih.checksum;
    }

LoopAccepts-loop :
    (seen : List Event) (last_ts : Option Timestamp) (hash : ℕ) (events : List Event) (expected : ℕ)
    → LoopAccepts seen last_ts hash events expected
    → verify_v4_loop seen last_ts hash events expected ≡ true
LoopAccepts-loop seen last_ts hash [] expected h =
    unfold verify_v4_loop in ground (arith, h.checksum)
LoopAccepts-loop seen last_ts hash (e ∷ events) expected h =
    loop_round seen last_ts hash e events expected
      (record { version_ok = h.versions.0; unseen = h.fresh.0; in_order = h.later.0 })
    ∙ LoopAccepts-loop (seen ++ (e ∷ [])) (some e.timestamp) (advance_hash hash e) events expected
        (record {
          versions = h.versions.1;
          fresh = unstep_fresh seen e events h.fresh.1 (All-first _ _ events h.ordered.0);
          later = All-second _ _ events h.ordered.0;
          ordered = h.ordered.1;
          checksum = h.checksum;
        })

All-any {ℓ} : {A : Type ℓ} (P : A → Type 0) (xs : List A) → ((x : A) → P x) → All P xs
All-any P [] f = tt
All-any P (x ∷ xs) f = (f x, All-any P xs f)

-- The v4 verification accepts exactly the valid histories.
pub verify_v4_events_iff :
    (events : List Event) (hash : ℕ)
    → (verify_v4_events events hash ≡ true) ↔ IsHistoryV4 events hash
unfolding verify_v4_events
verify_v4_events_iff events hash = (
  λ h.
      let a = loop-LoopAccepts [] none 0 events hash h in
      record { versions = a.versions; ordered = a.ordered; checksum = a.checksum },
  λ h. LoopAccepts-loop [] none 0 events hash (record {
    versions = h.versions;
    fresh = All-any _ events (λ _. tt);
    later = All-any _ events (λ _. tt);
    ordered = h.ordered;
    checksum = h.checksum;
  }),
)
