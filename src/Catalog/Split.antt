-- ===== src/Catalog/Split.antt =====
-- The loops of `_split_items_by_custom_property` and `_split_models_by_accuracy` of
-- sorting/utils.py, and the comparison of the positions that follows both.
pub mod Grouped
use opendatahub_tests.Shared.{ℕ, ◌+◌, Bool, ◌&&◌, not, List, [], ◌∷◌, if◌then◌else◌, ltb, is_empty}

module _ {ℓ} {A : Type ℓ} (has_it : A → Bool) where
  -- The items with their positions from `idx` on, those that have it and the others.
  unfoldable pub split_items : ℕ → List A → List (ℕ × A) × List (ℕ × A)
  split_items idx [] = ([], [])
  split_items idx (item ∷ items) =
      let (found, missing) = split_items (idx + 1) items in
      if has_it item then ((idx, item) ∷ found, missing) else (found, (idx, item) ∷ missing)

module _ {ℓ} {A : Type ℓ} where
  -- `items[0][0]` and `items[-1][0]`, where there are items.
  first_position : List (ℕ × A) → ℕ
  first_position [] = 0
  first_position ((idx, item) ∷ items) = idx

  last_position : ℕ → List (ℕ × A) → ℕ
  last_position idx [] = idx
  last_position idx ((next, item) ∷ items) = last_position next items

  unfoldable pub out_of_place : List (ℕ × A) → List (ℕ × A) → Bool
  unfolding first_position last_position
  out_of_place found missing =
      not (is_empty found)
      && not (is_empty missing)
      && ltb (first_position missing) (last_position 0 found)
