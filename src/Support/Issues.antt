-- ===== src/Support/Issues.antt =====
-- utilities/jira.py and utilities/operator_utils.py. The version library and the issue tracker are
-- arguments.
use Prim.Native.Char.{Char, code}
use opendatahub_tests.Shared.{
  String, Bool, true, not, ◌&&◌, Option, none, some, List, [], ◌∷◌, ◌==◌, if◌then◌else◌, has, all,
  keep, is_empty, lower, starts_with, drop_chars, leb, join,
}
use opendatahub_tests.Cluster.Access.{get_product_version}
use opendatahub_tests.Cluster.Errors.{
  Lookup, ok, err, value_error, resource_not_found, runtime_error,
}

abbrev pub jira_closed_statuses : List String
jira_closed_statuses = "closed" ∷ "resolved" ∷ "testing" ∷ []

-- The issue's status; `none` where the tracker cannot be reached.
unfoldable pub is_jira_issue_open : Option String → Bool
is_jira_issue_open none = true
is_jira_issue_open (some status) = not (has jira_closed_statuses (lower status))

is_digit : Char → Bool
is_digit c = leb 48 (code c) && leb (code c) 57

digits_of : String → String
unfolding is_digit
digits_of String.[] = String.[]
digits_of (String.◌∷◌ c s) =
    let rest = digits_of s in if is_digit c then String.◌∷◌ c rest else String.[]

behind_digits : String → String
unfolding is_digit
behind_digits String.[] = String.[]
behind_digits (String.◌∷◌ c s) =
    let rest = behind_digits s in if is_digit c then rest else String.◌∷◌ c s

-- A dot and digits at the front, if they are there, and what follows them.
dot_digits : String → Option (String × String)
unfolding digits_of behind_digits is_digit
dot_digits text =
    let rest = drop_chars 1 text in
    if starts_with text "." && not (digits_of rest == "")
    then some (join "." (digits_of rest), behind_digits rest)
    else none

version_here : String → Option String
unfolding dot_digits digits_of behind_digits is_digit
version_here text = if digits_of text == "" then none else elim (dot_digits (behind_digits text)) [
  | none ↦ none
  | some (minor, rest) ↦ elim (dot_digits rest) [
    | none ↦ some (join (digits_of text) minor)
    | some (micro, more) ↦ some (join (digits_of text) (join minor micro))
  ]
]

-- `re.search(r"\d+\.\d+(?:\.\d+)?", text)`
unfoldable pub search_version : String → Option String
unfolding version_here dot_digits digits_of behind_digits is_digit
search_version String.[] = none
search_version (String.◌∷◌ c s) =
    let later = search_version s in
    elim (version_here (String.◌∷◌ c s)) [ none ↦ later | some found ↦ some found ]

fix_versions_of {ℓ} : {V : Type ℓ} → (String → V) → List String → List V
fix_versions_of version [] = []
fix_versions_of version (name ∷ names) =
    let rest = fix_versions_of version names in
    elim (search_version name) [ none ↦ rest | some found ↦ version found ∷ rest ]

-- The issue's status, the names of its fix versions, and the versions that are installed.
unfoldable pub is_jira_open {ℓ} :
    {V : Type ℓ}
    → (String → V)
    → (V → V → Bool)
    → Option String
    → List String
    → List (String × String)
    → Lookup Bool
unfolding is_jira_issue_open fix_versions_of
is_jira_open version less status fix_version_names csvs =
    let jira_fix_versions = fix_versions_of version fix_version_names in
    if is_jira_issue_open status
    then ok true
    else if is_empty jira_fix_versions
    then err value_error
    else elim (get_product_version (λ v. ok (version v)) csvs) [
      | err raised ↦ err raised
      | ok csv_version ↦ ok (all (λ v. less csv_version v) jira_fix_versions)
    ]

-- `get_cluster_service_version`: the names that are listed. Several matches are another error.
unfoldable pub get_cluster_service_version : String → List String → Lookup String
get_cluster_service_version prefix csvs = elim (keep (λ name. starts_with name prefix) csvs) [
  | [] ↦ err resource_not_found
  | name ∷ [] ↦ ok name
  | name ∷ other ∷ rest ↦ err runtime_error
]

-- The images of the version whose name has the prefix; `images` are those of a version by its name.
images_of {ℓ} : {I : Type ℓ} → (String → I) → List String → String → Lookup I
unfolding get_cluster_service_version
images_of images csvs prefix = elim (get_cluster_service_version prefix csvs) [
  | err raised ↦ err raised
  | ok name ↦ ok (images name)
]

unfoldable pub get_csv_related_images {ℓ} :
    {I : Type ℓ} → (String → I) → Option String → String → Lookup String → List String → Lookup I
unfolding images_of get_cluster_service_version
get_csv_related_images images (some csv_name) distribution product_version csvs =
    images_of images csvs csv_name
get_csv_related_images images none distribution (err raised) csvs = err raised
get_csv_related_images images none distribution (ok version) csvs = images_of images csvs (
    join (if distribution == "upstream" then "opendatahub-operator." else "rhods-operator.")
      version)
