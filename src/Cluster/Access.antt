-- ===== src/Cluster/Access.antt =====
-- What utilities/infra.py reads from the cluster itself: the login and its token, whether the
-- cluster is disconnected or managed, the operator's version and its subscription, and images.
pub mod Managed
pub mod Token
use Prim.Native.String
use Prim.Native.Char.{code}
use opendatahub_tests.Shared.{
  ℕ, String, Bool, true, false, not, ◌&&◌, ◌||◌, Option, none, some, List, [], ◌∷◌, ◌==◌,
  if◌then◌else◌, Fallible, first, any, keep, join, given, in_text, lower, starts_with, drop_chars,
  nat_eq,
}
use opendatahub_tests.Cluster.Errors.{
  Lookup, LookupError, ok, err, resource_not_found, missing_resource, runtime_error,
  assertion_error, cluster_login_error,
}

unfoldable pub login_command : String → String → Option String → String
login_command api_address user password =
    let command =
      join "oc login  --insecure-skip-tls-verify=true " (join api_address (join " -u " user)) in
    elim password [
      | none ↦ command
      | some p ↦ if p == "" then command else join command (join " -p '" (join p "'"))
    ]

-- `run` gives what the command writes to the standard output and the standard error.
unfoldable pub login_with_user_password :
    (String → String × String) → String → String → Option String → Lookup Bool
unfolding login_command
login_with_user_password run api_address user password =
    let (out, err_) = run (login_command api_address user password) in
    if starts_with (lower err_) "error"
    then err cluster_login_error
    else ok (in_text "Login successful" out || in_text "Logged into" out)

-- The operator hub's setting, if there is a hub; and the setting itself may be missing.
unfoldable pub is_disconnected_cluster : Option (Option Bool) → Lookup Bool
is_disconnected_cluster none = err runtime_error
is_disconnected_cluster (some none) = ok false
is_disconnected_cluster (some (some disable_all_default_sources)) = ok disable_all_default_sources

abbrev pub Tags : Type 0
Tags = List (String × String)

-- An entry of the platform's status: one with resource tags, or anything else.
pub data Entry : Type 0 where
  field : Tags → Entry
  plain : Entry

tagged_managed : Tags → Bool
tagged_managed tags =
    any (λ (t : String × String). t.1 == "true")
      (keep (λ (t : String × String). t.0 == "red-hat-managed") tags)

first_tags : List Entry → Bool
unfolding tagged_managed
first_tags [] = false
first_tags (plain ∷ entries) = first_tags entries
first_tags (field [] ∷ entries) = first_tags entries
first_tags (field (tag ∷ tags) ∷ entries) = tagged_managed (tag ∷ tags)

-- `none`: there is no such resource.
unfoldable pub is_managed_cluster : Option (List Entry) → Bool
unfolding first_tags tagged_managed
is_managed_cluster none = false
is_managed_cluster (some entries) = first_tags entries

-- What `.+` matches at the front: all up to the end of the line.
until_newline : String → String
until_newline String.[] = String.[]
until_newline (String.◌∷◌ c s) =
    let rest = until_newline s in if nat_eq (code c) 10 then String.[] else String.◌∷◌ c rest

-- `re.search(r"Bearer (.+)", text)`, and its group.
search_bearer : String → Option String
unfolding until_newline
search_bearer String.[] = none
search_bearer (String.◌∷◌ c s) =
    let here = until_newline (drop_chars 7 (String.◌∷◌ c s)) in
    let later = search_bearer s in
    if starts_with (String.◌∷◌ c s) "Bearer " && not (here == "") then some here else later

unfoldable pub get_openshift_token : String → Lookup String
unfolding search_bearer until_newline
get_openshift_token bearer_str =
    if bearer_str == ""
    then err assertion_error
    else (elim (search_bearer bearer_str) [ none ↦ err assertion_error | some token ↦ ok token ])

-- The configuration of the storage initializer, if the config map exists; `image` reads its JSON.
unfoldable pub get_kserve_storage_initialize_image :
    (String → Lookup String) → Option String → Lookup String
get_kserve_storage_initialize_image image none = err resource_not_found
get_kserve_storage_initialize_image image (some storage_initializer) = image storage_initializer

unfoldable pub is_operator_csv : String → Bool
is_operator_csv name = starts_with name "rhods" || starts_with name "opendatahub"

-- The names of the service versions with the versions in them, as they are listed. `parse` is the
-- version library's.
unfoldable pub get_product_version {ℓ} :
    {V : Type ℓ} → (String → Lookup V) → List (String × String) → Lookup V
unfolding is_operator_csv
get_product_version parse csvs =
    elim (first (λ (csv : String × String). is_operator_csv csv.0) csvs) [
      | none ↦ err missing_resource
      | some (name, operator_version) ↦
          if operator_version == "" then err missing_resource else parse operator_version
    ]

-- A subscription is its name and its installed version. The generator that the client gives is true
-- even where it is empty.
unfoldable pub get_rhods_subscription : List (String × String) → Option (String × String)
get_rhods_subscription subscriptions =
    first
      (λ (s : String × String).
        starts_with s.0 "rhods-operator" || starts_with s.0 "rhoai-operator")
      subscriptions

unfoldable pub get_rhods_operator_installed_csv : List (String × String) → Option String
unfolding get_rhods_subscription
get_rhods_operator_installed_csv subscriptions = elim (get_rhods_subscription subscriptions) [
  | none ↦ none
  | some (name, installed_csv) ↦ some installed_csv
]

-- The management state; `none` for a missing one. The outer `none`: reading the resource raised.
unfoldable pub check_internal_image_registry_available : Option (Option String) → Bool
check_internal_image_registry_available none = false
check_internal_image_registry_available (some none) = false
check_internal_image_registry_available (some (some state)) = lower state == "managed"

unfoldable pub get_cluster_authentication {ℓ} : {A : Type ℓ} → Bool → A → Option A
get_cluster_authentication exists auth = if exists then some auth else none
