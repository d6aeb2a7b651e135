-- ===== src/Catalog/Sorted.antt =====
-- `sorted(values)` and `values != expected_values`, as `_verify_items_with_property_sorted` and
-- `_verify_items_without_property_sorted` of sorting/utils.py use them. Values have a total order,
-- and are equal if each is at most the other.
pub mod Chains
use opendatahub_tests.Shared.{
  ℕ, ◌≡◌, Bool, true, false, ◌&&◌, ◌||◌, not, List, [], ◌∷◌, if◌then◌else◌, leb,
}

pub record IsOrder {ℓ} {V : Type ℓ} (le : V → V → Bool) : Type ℓ where
  pub total : (a b : V) → (le a b || le b a) ≡ true
  pub le_trans : (a b c : V) → le a b ≡ true → le b c ≡ true → le a c ≡ true

module _ {ℓ} {V : Type ℓ} (le : V → V → Bool) where
  insert_sorted : V → List V → List V
  insert_sorted v [] = v ∷ []
  insert_sorted v (w ∷ ws) =
      let rest = insert_sorted v ws in if le v w then v ∷ w ∷ ws else w ∷ rest

  unfoldable pub sorted : List V → List V
  unfolding insert_sorted
  sorted [] = []
  sorted (v ∷ vs) = insert_sorted v (sorted vs)

  unfoldable pub same_values : List V → List V → Bool
  same_values [] [] = true
  same_values [] (w ∷ ws) = false
  same_values (v ∷ vs) [] = false
  same_values (v ∷ vs) (w ∷ ws) = (le v w && le w v) && same_values vs ws

  unfoldable pub is_sorted : List V → Bool
  is_sorted vs = same_values vs (sorted vs)
