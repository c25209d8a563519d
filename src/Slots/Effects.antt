-- ===== src/Slots/Effects.antt =====
-- What one event does to the layout, and what the projection keeps at every event.
use hivra_app.Prelude.{
  ◌≡◌, inl, inr, Bool, true, false, not, ◌&&◌, ◌||◌, List, ok, err, arith, push_unique, Bool-cases,
  any-same-push_unique, any-same_of_eq, if◌then◌else◌,
}
use hivra_app.Primitives.{Bytes, Bytes-discrete, bytes_eq, StarterId}
use hivra_app.Events.{Event, EventKind, event_kind_eq, starter_created, starter_burned}
use hivra_app.Payloads.{starter_created_from_bytes, starter_burned_from_bytes}
use hivra_app.Slots.{contains_starter, contains_id, occupy_first_free}
use hivra_app.Slots.Projection.{Progress, create_starter, burn_starter, apply_event}
use hivra_app.Slots.Layouts.{
  IsLayout, contains-occupy, contains-free, occupy-IsLayout, free-IsLayout,
}

-- Whether an event of the owner creates, or burns, a starter.
abbrev pub creates : Bytes → StarterId → Event → Bool
creates owner id e =
    bytes_eq e.signer owner
    && (event_kind_eq e.kind starter_created && elim (starter_created_from_bytes e.payload) [
      | err _ ↦ false
      | ok payload ↦ bytes_eq payload.starter_id id
    ])

abbrev pub burns : Bytes → StarterId → Event → Bool
burns owner id e =
    bytes_eq e.signer owner
    && (event_kind_eq e.kind starter_burned && elim (starter_burned_from_bytes e.payload) [
      | err _ ↦ false
      | ok payload ↦ bytes_eq payload.starter_id id
    ])

pub contains_id-push_unique :
    (values : List Bytes) (x id : Bytes)
    → contains_id (push_unique Bytes-discrete values x) id
      ≡ (contains_id values id || bytes_eq x id)
contains_id-push_unique values x id = any-same-push_unique Bytes-discrete values x id

-- What the loop keeps: five slots with different starters, and none that was burned or revoked.
pub record IsProgress (revoked : List StarterId) (p : Progress) : Type 0 where
  pub layout_ok : IsLayout p.layout
  pub burned_out :
      (id : StarterId) → contains_id p.burned id ≡ true → contains_starter p.layout id ≡ false
  pub revoked_out :
      (id : StarterId) → contains_id revoked id ≡ true → contains_starter p.layout id ≡ false

pub create-IsProgress :
    (revoked : List StarterId) (p : Progress) (x : StarterId)
    → IsProgress revoked p
    → IsProgress revoked (create_starter revoked p x)
unfolding create_starter
create-IsProgress revoked p x h = elim (Bool-cases (contains_id p.burned x)) [
  | inl burned ↦ rw burned h
  | inr kept ↦ elim (Bool-cases (contains_id revoked x)) [
    | inl gone ↦ rw (kept, gone) h
    | inr live ↦ elim (Bool-cases (contains_starter p.layout x)) [
      | inl there ↦ rw (kept, live, there) h
      | inr absent ↦
          rw (kept, live, absent)
            (record {
              layout_ok = occupy-IsLayout p.layout x absent h.layout_ok;
              burned_out = λ id e.
                  occupied_other id (contains_id p.burned id)
                    (any-same_of_eq Bytes-discrete p.burned x id) kept e (h.burned_out id e);
              revoked_out = λ id e.
                  occupied_other id (contains_id revoked id)
                    (any-same_of_eq Bytes-discrete revoked x id) live e (h.revoked_out id e);
            })
    ]
  ]
]
  where
    -- A starter that differs from the new one by some list is not brought in.
    occupied_other :
        (id : StarterId) (listed : Bool) {x_listed : Bool}
        → (bytes_eq x id ≡ true → x_listed ≡ listed)
        → x_listed ≡ false
        → listed ≡ true
        → contains_starter p.layout id ≡ false
        → contains_starter (occupy_first_free p.layout x) id ≡ false
    occupied_other id listed same_listed no_x is_id gone =
        ground (arith, contains-occupy id p.layout x)

pub burn-IsProgress :
    (revoked : List StarterId) (p : Progress) (x : StarterId)
    → IsProgress revoked p
    → IsProgress revoked (burn_starter p x)
unfolding burn_starter
burn-IsProgress revoked p x h = record {
  layout_ok = free-IsLayout p.layout x h.layout_ok;
  burned_out = λ id e. ground (
    arith,
    contains-free id p.layout x h.layout_ok.distinct,
    contains_id-push_unique p.burned x id,
    h.burned_out id,
  );
  revoked_out =
      λ id e. ground (arith, contains-free id p.layout x h.layout_ok.distinct, h.revoked_out id);
}

-- What an event does to the layout.
pub data Effect : Type 0 where
  nothing : Effect
  create burn : StarterId → Effect

abbrev effect_of_kind : Event → EventKind → Effect
effect_of_kind e starter_created = elim (starter_created_from_bytes e.payload) [
  | err _ ↦ nothing
  | ok payload ↦ create payload.starter_id
]
effect_of_kind e starter_burned = elim (starter_burned_from_bytes e.payload) [
  | err _ ↦ nothing
  | ok payload ↦ burn payload.starter_id
]
effect_of_kind e _ = nothing

pub effect_of : Bytes → Event → Effect
effect_of owner e = if not (bytes_eq e.signer owner) then nothing else effect_of_kind e e.kind

abbrev pub perform : List StarterId → Progress → Effect → Progress
perform revoked p nothing = p
perform revoked p (create x) = create_starter revoked p x
perform revoked p (burn x) = burn_starter p x

abbrev pub is_create : StarterId → Effect → Bool
is_create id nothing = false
is_create id (create x) = bytes_eq x id
is_create id (burn x) = false

abbrev pub is_burn : StarterId → Effect → Bool
is_burn id nothing = false
is_burn id (create x) = false
is_burn id (burn x) = bytes_eq x id

pub apply_event-effect :
    (owner : Bytes) (revoked : List StarterId) (p : Progress) (e : Event)
    → apply_event owner revoked p e ≡ perform revoked p (effect_of owner e)
unfolding apply_event effect_of
apply_event-effect owner revoked p e = ground arith

pub creates-effect :
    (owner : Bytes) (id : StarterId) (e : Event)
    → creates owner id e ≡ is_create id (effect_of owner e)
unfolding effect_of
creates-effect owner id e = ground arith

pub burns-effect :
    (owner : Bytes) (id : StarterId) (e : Event) → burns owner id e ≡ is_burn id (effect_of owner e)
unfolding effect_of
burns-effect owner id e = ground arith
