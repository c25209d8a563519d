-- ===== src/Relationships.antt =====
-- core/hivra-core/src/relationship.rs: the collection of relationships. A method that changes the
-- collection returns its result and the collection after it.
pub mod Keys
pub mod Projection
pub mod Apart
pub mod Projected
pub mod View
pub mod Order
mod Examples
use hivra_app.Prelude.{
  ℕ, zero, suc, Bool, true, false, not, ◌&&◌, ◌||◌, Option, none, some, List, [], ◌∷◌, ◌++◌,
  if◌then◌else◌, length, get_elem?, any, position, retain, same,
}
use hivra_app.Primitives.{bytes_eq, PubKey, StarterId, StarterKind, StarterKind-discrete, Timestamp}

pub record Relationship : Type 0 where
  pub peer : PubKey
  pub own_starter_id : StarterId
  pub peer_starter_id : StarterId
  pub kind : StarterKind
  pub established_at : Timestamp

unfoldable pub involves_starter : Relationship → StarterId → Bool
involves_starter r starter_id =
    bytes_eq r.own_starter_id starter_id || bytes_eq r.peer_starter_id starter_id

unfoldable pub is_with_peer : Relationship → PubKey → Bool
is_with_peer r peer = bytes_eq r.peer peer

abbrev pub Relationships : Type 0
Relationships = List Relationship

-- The test of `add`, `remove` and `exists`.
unfoldable pub is_keyed : PubKey → StarterId → Relationship → Bool
is_keyed peer own_starter_id r = is_with_peer r peer && bytes_eq r.own_starter_id own_starter_id

unfoldable pub with_peer : Relationships → PubKey → List Relationship
with_peer active peer = retain (λ r. is_with_peer r peer) active

unfoldable pub for_starter : Relationships → StarterId → List Relationship
for_starter active starter_id = retain (λ r. bytes_eq r.own_starter_id starter_id) active

unfoldable pub of_kind : Relationships → StarterKind → List Relationship
of_kind active kind = retain (λ r. same StarterKind-discrete r.kind kind) active

unfoldable pub exists : Relationships → PubKey → StarterId → Bool
exists active peer own_starter_id = any (is_keyed peer own_starter_id) active

unfoldable pub add : Relationships → Relationship → Bool × Relationships
add active r =
    if any (is_keyed r.peer r.own_starter_id) active
    then (false, active)
    else (true, active ++ (r ∷ []))

-- `Vec::remove` at an index.
unfoldable pub remove_at : Relationships → ℕ → Relationships
remove_at [] i = []
remove_at (r ∷ rs) zero = rs
remove_at (r ∷ rs) (suc i) = r ∷ remove_at rs i

-- `pos.map(|idx| self.active.remove(idx))`
abbrev pub take_out : Relationships → Option ℕ → Option Relationship × Relationships
take_out active none = (none, active)
take_out active (some i) = (get_elem? active i, remove_at active i)

unfoldable pub remove : Relationships → PubKey → StarterId → Option Relationship × Relationships
remove active peer own_starter_id = take_out active (position (is_keyed peer own_starter_id) active)

-- `retain` with the removed entries pushed aside.
unfoldable pub split_off : (Relationship → Bool) → Relationships → List Relationship × Relationships
split_off p active = (retain p active, retain (λ r. not (p r)) active)

unfoldable pub remove_all_for_starter :
    Relationships → StarterId → List Relationship × Relationships
remove_all_for_starter active starter_id = split_off (λ r. involves_starter r starter_id) active

unfoldable pub remove_all_with_peer : Relationships → PubKey → List Relationship × Relationships
remove_all_with_peer active peer = split_off (λ r. is_with_peer r peer) active
