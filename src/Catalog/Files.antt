-- ===== src/Catalog/Files.antt =====
-- `validate_performance_data_files_on_pod` of search/utils.py. What `ls` prints in the pod for a
-- directory is an argument, its lines already split where the source splits them.
pub mod Raised
use opendatahub_tests.Shared.{
  ℕ, String, Bool, ◌&&◌, not, Option, none, some, List, [], ◌∷◌, ◌==◌, if◌then◌else◌, has, keep,
  is_empty, put, join, in_text,
}

-- `list.remove`, which raises where the element is missing.
unfoldable pub remove_file : String → List String → Option (List String)
remove_file file [] = none
remove_file file (f ∷ files) =
    let rest = remove_file file files in
    if f == file then some files else elim rest [ none ↦ none | some left ↦ some (f ∷ left) ]

abbrev pub all_files : List String
all_files = "metadata.json" ∷ "performance.ndjson" ∷ "evaluations.ndjson" ∷ []

-- Only for one provider is a performance file expected.
unfoldable pub required_files : String → Option (List String)
required_files provider =
    if not (provider == "RedHatAI")
    then remove_file "performance.ndjson" all_files
    else some all_files

abbrev pub without_evaluations : String
without_evaluations = "Mistral-Small-24B-Instruct-2501"

abbrev pub without_performance : String
without_performance = "granite-3.1-8b-instruct-quantized.w8a8"

-- The file that a model lacks is taken off the provider's list, also for the models behind it.
unfoldable pub narrow : String → List String → Option (List String)
narrow model required =
    if model == without_evaluations
    then remove_file "evaluations.ndjson" required
    else if model == without_performance
    then remove_file "performance.ndjson" required
    else some required

abbrev pub Results : Type 0
Results = List (String × List String)

-- The listing is one text, in which each file's name is searched.
unfoldable pub check_listing : String → String → List String → Results → Results
check_listing key listing required results =
    let missing = keep (λ f. not (in_text f listing)) required in
    if is_empty missing then results else put key missing results

module _ (listing : String → String → String) where
  unfoldable pub check_models : String → List String → List String → Results → Option Results
  check_models provider [] required results = some results
  check_models provider (model ∷ models) required results =
      let skipped = check_models provider models required results in
      if model == "provider.json" then skipped else elim (narrow model required) [
        | none ↦ none
        | some left ↦
            check_models provider models left
              (check_listing (join provider (join "/" model)) (listing provider model) left results)
      ]

  unfoldable pub check_provider : String → List String → Results → Option Results
  check_provider provider models results = elim (required_files provider) [
    | none ↦ none
    | some required ↦ check_models provider models required results
  ]

  -- The providers with the entries of their directories; `none` is the `ValueError` of `remove`.
  unfoldable pub check_providers : List (String × List String) → Results → Option Results
  check_providers [] results = some results
  check_providers ((provider, models) ∷ providers) results =
      let skipped = check_providers providers results in
      if has ("manifest.json" ∷ "variant-groups.ndjson" ∷ []) provider
      then skipped
      else elim (check_provider provider models results) [
        | none ↦ none
        | some checked ↦ check_providers providers checked
      ]
