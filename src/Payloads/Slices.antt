-- ===== src/Payloads/Slices.antt =====
-- `read_fixed_32` and indexing into a row of 32-byte fields.
use hivra_app.Prelude.{
  ℕ, suc, ◌≡◌, ◌+◌, sym, ap, ◌∙◌, [], ◌∷◌, ◌++◌, arith, length, take, drop, get_or, length-append,
  take-append_length,
}
use hivra_app.Primitives.{Bytes, IsArray}
use hivra_app.Payloads.{read_fixed_32}
use mathlib.Core.List.{append-nil}

drop-append-add : (k : ℕ) (a r : Bytes) → drop (length a + k) (a ++ r) ≡ drop k r
drop-append-add k [] r = rw (← (let e : k ≡ 0 + k = omega arith in e))
drop-append-add k (x ∷ a) r =
    let e : suc (length a) + k ≡ suc (length a + k) = omega arith in rw e (drop-append-add k a r)

get_or-append-add : (k d : ℕ) (a r : Bytes) → get_or (a ++ r) (length a + k) d ≡ get_or r k d
get_or-append-add k d [] r = let e : 0 + k ≡ k = omega arith in rw e
get_or-append-add k d (x ∷ a) r =
    let e : suc (length a) + k ≡ suc (length a + k) = omega arith in
    rw e (get_or-append-add k d a r)

-- The first field.
pub read-head : (a r : Bytes) → IsArray 32 a → read_fixed_32 (a ++ r) 0 ≡ a
unfolding read_fixed_32
read-head a r h = rw (← h) (take-append_length a r)

pub read_self : (a : Bytes) → IsArray 32 a → read_fixed_32 a 0 ≡ a
read_self a h = ap (λ b. read_fixed_32 b 0) (sym (append-nil a)) ∙ read-head a [] h

-- Past one, two or three fields.
pub read-past :
    (a r : Bytes) (k : ℕ) → IsArray 32 a → read_fixed_32 (a ++ r) (32 + k) ≡ read_fixed_32 r k
unfolding read_fixed_32
read-past a r k h = rw (← h) (ap (take _) (drop-append-add k a r))

pub get_or-past : (a r : Bytes) (k d : ℕ) → IsArray 32 a → get_or (a ++ r) (32 + k) d ≡ get_or r k d
get_or-past a r k d h = rw (← h) (get_or-append-add k d a r)

-- Three fields in a row, and what follows them: the head of five of the payloads.
abbrev pub row : Bytes → Bytes → Bytes → Bytes → Bytes
row a b c r = a ++ (b ++ (c ++ r))

module _ (a b c r : Bytes) (ha : IsArray 32 a) (hb : IsArray 32 b) (hc : IsArray 32 c) where
  pub read-row-past : (k : ℕ) → read_fixed_32 (row a b c r) (96 + k) ≡ read_fixed_32 r k
  read-row-past k = ground (
    arith,
    read-past a (b ++ (c ++ r)) (64 + k) ha,
    read-past b (c ++ r) (32 + k) hb,
    read-past c r k hc,
  )

  pub get_or-row-past : (k d : ℕ) → get_or (row a b c r) (96 + k) d ≡ get_or r k d
  get_or-row-past k d = ground (
    arith,
    get_or-past a (b ++ (c ++ r)) (64 + k) d ha,
    get_or-past b (c ++ r) (32 + k) d hb,
    get_or-past c r k d hc,
  )

  pub row_fields :
      (length (row a b c r) ≡ 96 + length r)
      × (read_fixed_32 (row a b c r) 0 ≡ a)
      × (read_fixed_32 (row a b c r) 32 ≡ b)
      × (read_fixed_32 (row a b c r) 64 ≡ c)
  row_fields = (
    omega (arith, length-append a (b ++ (c ++ r)), length-append b (c ++ r), length-append c r),
    read-head a _ ha,
    ground (arith, read-past a (b ++ (c ++ r)) 0 ha, read-head b (c ++ r) hb),
    ground (arith, read-past a (b ++ (c ++ r)) 32 ha, read-past b (c ++ r) 0 hb, read-head c r hc),
  )

-- Past one byte.
pub read-cons : (x : ℕ) (r : Bytes) (k : ℕ) → read_fixed_32 (x ∷ r) (1 + k) ≡ read_fixed_32 r k
unfolding read_fixed_32
read-cons x r k = let e : 1 + k ≡ suc k = omega arith in rw e

pub get_or-cons : (x : ℕ) (r : Bytes) (k d : ℕ) → get_or (x ∷ r) (1 + k) d ≡ get_or r k d
get_or-cons x r k d = let e : 1 + k ≡ suc k = omega arith in rw e
