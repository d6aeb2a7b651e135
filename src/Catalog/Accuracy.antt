-- ===== src/Catalog/Accuracy.antt =====
-- `validate_accuracy_sorting_against_database` of sorting/utils.py. What the database's query gives
-- is an argument: the names of the models with an accuracy, in its order.
pub mod Validated
use opendatahub_tests.Shared.{
  ℕ, String, Bool, true, false, ◌&&◌, ◌||◌, not, Option, none, some, List, [], ◌∷◌, ◌==◌, map,
  if◌then◌else◌, leb, is_empty, has, all, given,
}
use opendatahub_tests.Catalog.Sorted.{is_sorted}
use opendatahub_tests.Catalog.Split.{split_items, out_of_place}

-- A model of the catalog's answer; its id is the number that `int` reads from it.
pub record ApiModel : Type 0 where
  pub name : Option String
  pub id : ℕ

unfoldable pub has_accuracy : List String → ApiModel → Bool
has_accuracy models_with_accuracy model = elim model.name [
  | none ↦ false
  | some name ↦ has models_with_accuracy name
]

-- The names of models that all have one.
unfoldable pub names_of : List ApiModel → List String
names_of [] = []
names_of (model ∷ models) =
    let rest = names_of models in elim model.name [ none ↦ rest | some name ↦ name ∷ rest ]

unfoldable pub same_names : List String → List String → Bool
same_names [] [] = true
same_names [] (t ∷ ts) = false
same_names (s ∷ ss) [] = false
same_names (s ∷ ss) (t ∷ ts) = s == t && same_names ss ts

-- `_verify_models_with_accuracy_sorted`: the names in their order or, without an order, as sets.
unfoldable pub models_with_accuracy_sorted : List String → List String → Option String → Bool
models_with_accuracy_sorted actual_names expected_models sort_order =
    if given sort_order
    then same_names actual_names expected_models
    else all (has expected_models) actual_names && all (has actual_names) expected_models

unfoldable pub models_without_accuracy_sorted : List (ℕ × ApiModel) → Bool
models_without_accuracy_sorted models = is_sorted leb (map (λ (p : ℕ × ApiModel). p.1.id) models)

unfoldable pub validate_accuracy_sorting : List String → Option String → List ApiModel → Bool
validate_accuracy_sorting models_with_accuracy sort_order api_models =
    let (found, missing) = split_items (has_accuracy models_with_accuracy) 0 api_models in
    if out_of_place found missing
    then false
    else if not (is_empty found)
        && not (
            models_with_accuracy_sorted (names_of (map (λ (p : ℕ × ApiModel). p.1) found))
              models_with_accuracy sort_order)
    then false
    else if not (is_empty missing) && not (models_without_accuracy_sorted missing)
    then false
    else true
