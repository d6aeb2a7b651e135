-- ===== src/Catalog/Tests.antt =====
-- Answers of a small catalog, and instances of the theorems on them.
use opendatahub_tests.Shared.{
  ℕ, ◌<◌, String, ◌≡◌, ◌↔◌, ◌⊎◌, true, false, Option, none, some, List, [], ◌∷◌, arith, has, leb,
  given, if◌then◌else◌,
}
use opendatahub_tests.Catalog.Properties.{
  CatalogItem, dictionary, value_of, has_value, gather_values, verify_custom_properties_sorted,
}
use opendatahub_tests.Catalog.Properties.Verified.{leb-IsOrder, verify_custom_properties_sorted-eq}
use opendatahub_tests.Catalog.Accuracy.{has_accuracy, validate_accuracy_sorting}
use opendatahub_tests.Catalog.Accuracy.Validated.{validate_accuracy_sorting-eq}
use opendatahub_tests.Catalog.Paging.{Response, fetch_all_artifacts}
use opendatahub_tests.Catalog.Paging.Complete.{CompleteFrom, fetch_all_artifacts_complete}
use opendatahub_tests.Catalog.Compared.{
  actual_ids, compare_results, valid, validate_recommendations_subset,
}
use opendatahub_tests.Catalog.Compared.Agreed.{
  compare_results_iff, validate_recommendations_subset_iff,
}
use opendatahub_tests.Catalog.Files.{check_providers}
use opendatahub_tests.Catalog.Files.Raised.{raised, raised-check_providers}

abbrev artifact : ℕ → List (String × Option ℕ) → CatalogItem ℕ
artifact id values = record { id = id; custom_properties = ("e2e_p90", dictionary values) ∷ [] }

abbrev artifacts : List (CatalogItem ℕ)
artifacts =
    artifact 9 (("double_value", some 7) ∷ [])
    ∷ artifact 4 (("double_value", some 5) ∷ [])
    ∷ artifact 2 (("double_value", none) ∷ [])
    ∷ artifact 3 []
    ∷ []

verify_custom_properties_sorted-eq_example :
    verify_custom_properties_sorted leb "e2e_p90" "double_value" "DESC" artifacts ≡ true
unfolding has_value value_of gather_values
verify_custom_properties_sorted-eq_example =
    verify_custom_properties_sorted-eq leb-IsOrder "e2e_p90" "double_value" "DESC" artifacts

-- The one model that the database knows an accuracy of is missing from the answer.
validate_accuracy_sorting-eq_example :
    validate_accuracy_sorting
      ("granite" ∷ [])
      (some "ASC")
      (record { name = some "llama"; id = 1 } ∷ record { name = none; id = 2 } ∷ [])
    ≡ true
unfolding has_accuracy
validate_accuracy_sorting-eq_example =
    validate_accuracy_sorting-eq ("granite" ∷ []) (some "ASC")
      (record { name = some "llama"; id = 1 } ∷ record { name = none; id = 2 } ∷ [])

-- An endpoint with 120 entries, of which it shows as many as a page has.
abbrev endpoint : ℕ → Response String
endpoint page_size = record {
  items = [];
  next_page_token = if leb 120 page_size then none else some "next";
}

endpoint-CompleteFrom : CompleteFrom endpoint 50 120
endpoint-CompleteFrom n h = ground arith

fetch_all_artifacts_complete_example :
    (n : ℕ) × (fetch_all_artifacts endpoint 50 21 100 ≡ some (endpoint n))
    × (given (endpoint n).next_page_token ≡ false)
    × ((n ≡ 100) ⊎ (n < 170))
fetch_all_artifacts_complete_example =
    fetch_all_artifacts_complete endpoint 50 120 20 100 endpoint-CompleteFrom (omega arith)
      (omega arith)

compare_results_iff_example :
    (compare_results (some "2" ∷ none ∷ some "1" ∷ []) ("1" ∷ "2" ∷ []) ≡ (true, [])) ↔ (
      (id : String)
      → has (actual_ids (some "2" ∷ none ∷ some "1" ∷ [])) id ≡ has ("1" ∷ "2" ∷ []) id)
compare_results_iff_example = compare_results_iff (some "2" ∷ none ∷ some "1" ∷ []) ("1" ∷ "2" ∷ [])

validate_recommendations_subset_iff_example :
    (validate_recommendations_subset [] [] ≡ valid) ↔ ((true ≡ false) × (true ≡ true))
unfolding actual_ids
validate_recommendations_subset_iff_example = validate_recommendations_subset_iff [] []

raised-check_providers_example :
    raised (
      check_providers
        (λ provider model. "metadata.json evaluations.ndjson")
        (("ibm", "granite-3.1-8b-instruct-quantized.w8a8" ∷ []) ∷ [])
        [])
    ≡ true
raised-check_providers_example =
    raised-check_providers (λ provider model. "metadata.json evaluations.ndjson")
      (("ibm", "granite-3.1-8b-instruct-quantized.w8a8" ∷ []) ∷ []) []
