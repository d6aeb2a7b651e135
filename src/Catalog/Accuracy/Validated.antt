-- ===== src/Catalog/Accuracy/Validated.antt =====
-- When an answer sorted by accuracy passes.
use opendatahub_tests.Shared.{
  ℕ, String, ◌≡◌, refl, ap, Bool, true, ◌&&◌, ◌||◌, not, Option, List, [], ◌∷◌, map, if◌then◌else◌,
  leb, is_empty, keep, any, all, has, given, arith, Option-cases, inl, inr,
}
use opendatahub_tests.Catalog.Sorted.{is_sorted, sorted, same_values}
use opendatahub_tests.Catalog.Sorted.Chains.{chain, is_sorted-eq-chain}
use opendatahub_tests.Catalog.Split.{split_items}
use opendatahub_tests.Catalog.Split.Grouped.{
  grouped, items_of-split_items, is_empty-split_items, out_of_place-split_items,
}
use opendatahub_tests.Catalog.Properties.Verified.{leb-IsOrder}
use opendatahub_tests.Catalog.Accuracy.{
  ApiModel, has_accuracy, names_of, same_names, models_with_accuracy_sorted,
  models_without_accuracy_sorted, validate_accuracy_sorting,
}

map-ids :
    (models : List (ℕ × ApiModel))
    → map (λ (p : ℕ × ApiModel). p.1.id) models
      ≡ map (λ (m : ApiModel). m.id) (map (λ (p : ℕ × ApiModel). p.1) models)
map-ids [] = refl
map-ids (model ∷ models) = ap (λ ids. model.1.id ∷ ids) (map-ids models)

models_without_accuracy_sorted-split :
    (p : ApiModel → Bool) (models : List ApiModel)
    → models_without_accuracy_sorted (split_items p 0 models).1
      ≡ chain leb (map (λ (m : ApiModel). m.id) (keep (λ m. not (p m)) models))
unfolding models_without_accuracy_sorted
models_without_accuracy_sorted-split p models = rw (
  map-ids (split_items p 0 models).1,
  (items_of-split_items p 0 models).1,
  is_sorted-eq-chain leb-IsOrder (map (λ (m : ApiModel). m.id) (keep (λ m. not (p m)) models)),
)

models_without_accuracy_sorted_none :
    (missing : List (ℕ × ApiModel))
    → is_empty missing ≡ true
    → models_without_accuracy_sorted missing ≡ true
unfolding models_without_accuracy_sorted is_sorted sorted same_values
models_without_accuracy_sorted_none [] h = refl
models_without_accuracy_sorted_none (model ∷ missing) h = ground arith

all-names_of-keep :
    (expected : List String) (models : List ApiModel)
    → all (has expected) (names_of (keep (has_accuracy expected) models)) ≡ true
unfolding names_of has_accuracy
all-names_of-keep expected [] = refl
all-names_of-keep expected (model ∷ models) = elim (Option-cases model.name) [
  | inl e ↦ ground (arith, all-names_of-keep expected models)
  | inr (name, e) ↦ ground (arith, all-names_of-keep expected models)
]

-- The names that the answer gives to models with an accuracy are the database's: in its order if
-- one is asked for, and else all of them in any order.
abbrev pub names_match : List String → Option String → List ApiModel → Bool
names_match expected sort_order models =
    let names = names_of (keep (has_accuracy expected) models) in
    if given sort_order then same_names names expected else all (has names) expected

models_with_accuracy_sorted-split :
    (expected : List String) (sort_order : Option String) (models : List ApiModel)
    → models_with_accuracy_sorted
        (names_of
          (map (λ (p : ℕ × ApiModel). p.1) (split_items (has_accuracy expected) 0 models).0))
        expected
        sort_order
      ≡ names_match expected sort_order models
unfolding models_with_accuracy_sorted
models_with_accuracy_sorted-split expected sort_order models =
    rw ((items_of-split_items (has_accuracy expected) 0 models).0)
      (ground (arith, all-names_of-keep expected models))

-- An answer passes exactly if no model without an accuracy stands in front of one with it, the
-- models with an accuracy are the database's, unless the answer has none of them, and the ids of
-- the others ascend: an answer that lacks every model with an accuracy is not refused.
pub validate_accuracy_sorting-eq :
    (expected : List String) (sort_order : Option String) (models : List ApiModel)
    → validate_accuracy_sorting expected sort_order models ≡ (
        grouped (has_accuracy expected) models
        && (not (any (has_accuracy expected) models) || names_match expected sort_order models)
        && chain leb
            (map (λ (m : ApiModel). m.id) (keep (λ m. not (has_accuracy expected m)) models)))
unfolding validate_accuracy_sorting
validate_accuracy_sorting-eq expected sort_order models =
    let p : ApiModel → Bool = has_accuracy expected in
    let (found, missing) = split_items p 0 models in
    ground (
      arith,
      out_of_place-split_items p 0 models,
      is_empty-split_items p 0 models,
      models_with_accuracy_sorted-split expected sort_order models,
      models_without_accuracy_sorted-split p models,
      models_without_accuracy_sorted_none missing,
    )
