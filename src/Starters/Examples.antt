-- ===== src/Starters/Examples.antt =====
-- The bytes behind a starter's id at concrete fields.
use hivra_app.Prelude.{◌≡◌, refl}
use hivra_app.Primitives.{seed, neste}
use hivra_app.Starters.Identity.{derive_preimage-injective}
use hivra_app.Samples.{key}

derive_preimage-injective_example :
    (key 1 ≡ key 1) × (seed ≡ seed) × (neste ≡ neste) × (key 4 ≡ key 4)
derive_preimage-injective_example =
    derive_preimage-injective (key 1) (key 1) seed seed neste neste (key 4) (key 4) refl refl refl
