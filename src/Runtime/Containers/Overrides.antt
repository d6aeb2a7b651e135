-- ===== src/Runtime/Containers/Overrides.antt =====
-- A configuration is the last word on its container.
use opendatahub_tests.Shared.{
  String, Bool, true, false, not, ◌&&◌, Option, none, some, [], ◌∷◌, ◌==◌, lookup, put, lookup-put,
  any, ◌≡◌, refl, arith, eq_iff,
}
use opendatahub_tests.Runtime.Values.{Value, Container}
use opendatahub_tests.Runtime.Containers.{override}

-- No key stands twice in a configuration, as in a dictionary.
abbrev pub distinct : Container → Bool
distinct [] = true
distinct ((j, v) ∷ config) = not (any (λ (e : String × Value). e.0 == j) config) && distinct config

lookup-absent :
    (k : String) (m : Container)
    → any (λ (e : String × Value). e.0 == k) m ≡ false
    → lookup k m ≡ none
lookup-absent k [] h = refl
lookup-absent k ((j, v) ∷ m) h = ground (arith, h, lookup-absent k m)

-- A container that is overridden has the values of the configuration, and its own for other keys.
pub lookup-override :
    (config container : Container) (k : String)
    → distinct config ≡ true
    → lookup k (override config container) ≡ elim (lookup k config) as (λ _. Option Value) [
      | none ↦ lookup k container
      | some v ↦ some v
    ]
unfolding override
lookup-override [] container k d = refl
lookup-override ((j, v) ∷ config) container k d = ground (
  arith,
  d,
  eq_iff j k,
  lookup-put j k v container,
  lookup-absent j config,
  lookup-override config (put j v container) k,
)
