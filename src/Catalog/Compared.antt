-- ===== src/Catalog/Compared.antt =====
-- `_compare_api_and_database_results` and `validate_recommendations_subset` of search/utils.py. A
-- set of ids is a list that it is read from.
pub mod Agreed
use opendatahub_tests.Shared.{
  String, Bool, ◌&&◌, not, Option, none, some, List, [], ◌∷◌, ◌++◌, ◌==◌, if◌then◌else◌, has, keep,
  is_empty,
}

-- The ids of the answer's entries that have one.
unfoldable pub actual_ids : List (Option String) → List String
actual_ids [] = []
actual_ids (none ∷ ids) = actual_ids ids
actual_ids (some id ∷ ids) = if id == "" then actual_ids ids else id ∷ actual_ids ids

-- `left - right`
unfoldable pub difference : List String → List String → List String
difference left right = keep (λ id. not (has right id)) left

pub data Mismatch : Type 0 where
  missing_in_api extra_in_api : List String → Mismatch

unfoldable pub compare_results : List (Option String) → List String → Bool × List Mismatch
compare_results items expected_model_ids =
    let actual = actual_ids items in
    let missing = difference expected_model_ids actual in
    let extra = difference actual expected_model_ids in
    let errors =
      (if is_empty missing then [] else missing_in_api missing ∷ [])
      ++ (if is_empty extra then [] else extra_in_api extra ∷ []) in
    (is_empty errors, errors)

pub data Subset : Type 0 where
  valid zero_division : Subset
  missing_in_full : List String → Subset

-- The share that is logged divides by the number of artifacts.
unfoldable pub validate_recommendations_subset :
    List (Option String) → List (Option String) → Subset
validate_recommendations_subset full_artifacts recommendations_artifacts =
    let missing = difference (actual_ids recommendations_artifacts) (actual_ids full_artifacts) in
    if not (is_empty missing)
    then missing_in_full missing
    else if is_empty full_artifacts
    then zero_division
    else valid
