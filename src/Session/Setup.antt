-- ===== src/Session/Setup.antt =====
-- `pytest_sessionstart`, `updated_global_config`, `pytest_runtest_setup`, `pytest_runtest_teardown`
-- and `pytest_report_teststatus` of conftest.py, with `get_operator_distribution` and
-- `get_dsci_applications_namespace` of utilities/infra.py. The logging set-up and the files are left
-- out.
pub mod Distribution
pub use opendatahub_tests.Shared.{ok, err, ◌>>=◌}
use opendatahub_tests.Shared.{
  Fallible, ℕ, String, ◌≡◌, Bool, true, false, ◌&&◌, ◌||◌, not, Option, none, some, List, [], ◌∷◌,
  ◌++◌, ◌==◌, if◌then◌else◌, has, first, given, starts_with, lower, drop_chars, arith, refl,
}

-- `value.split("=", 1)[1]` of an override that starts with "log_cli=".
abbrev log_cli_value : String → String
log_cli_value override = lower (drop_chars 8 override)

-- Whether the console is on: unless the first override of `log_cli` says otherwise.
unfoldable pub enable_console : List String → Bool
enable_console overrides = elim (first (λ o. starts_with o "log_cli=") overrides) [
  | none ↦ true
  | some override ↦ not (has ("false" ∷ "0" ∷ "no" ∷ "off" ∷ []) (log_cli_value override))
]

pub data Problem : Type 0 where
  -- a `ValueError`, a `MissingResourceError`, and `pytest.exit`
  value_error missing_resource exit : Problem

abbrev pub Result {ℓ} : Type ℓ → Type ℓ
Result A = Fallible Problem A

-- What the cluster says: the release name in the status of the data science cluster, and the
-- initialisation resource, if it is there, with its namespace.
pub record Cluster : Type 0 where
  pub release_name : Option String
  pub dsci : Option (Option String)

pub record GlobalConfig : Type 0 where
  pub distribution : String
  pub operator_namespace : String
  pub applications_namespace : String

-- Text that Python takes for true.
unfoldable pub truthy : Option String → Result String
truthy none = err value_error
truthy (some s) = if s == "" then err value_error else ok s

unfoldable pub get_operator_distribution : Cluster → Result String
unfolding truthy
get_operator_distribution cluster = truthy cluster.release_name

unfoldable pub get_dsci_applications_namespace : Cluster → Result String
unfolding truthy
get_dsci_applications_namespace cluster = elim cluster.dsci [
  | none ↦ err missing_resource
  | some app_namespace ↦ truthy app_namespace
]

unfoldable pub set_distribution : String → GlobalConfig → Result GlobalConfig
set_distribution distribution config =
    if distribution == "Open Data Hub"
    then ok
        (record config { distribution = "upstream"; operator_namespace = "opendatahub-operators" })
    else if starts_with distribution "OpenShift AI"
    then ok (record config { distribution = "downstream" })
    else err exit

unfoldable pub updated_global_config : Cluster → GlobalConfig → Result GlobalConfig
unfolding set_distribution
updated_global_config cluster config = do
  distribution ← get_operator_distribution cluster
  config' ← set_distribution distribution config
  namespace ← get_dsci_applications_namespace cluster
  ok (record config' { applications_namespace = namespace })

-- The end of `pytest_sessionstart`.
unfoldable pub session_config : Bool → Cluster → GlobalConfig → Result GlobalConfig
session_config skip cluster config =
    if skip then ok config else updated_global_config cluster config

-- The end of `pytest_runtest_setup`: the fixture that is put in front.
unfoldable pub setup_fixtures : List String → List String → List String
setup_fixtures keywords fixturenames =
    if has keywords (lower "RawDeployment")
    then "enabled_kserve_in_dsc" ∷ fixturenames
    else if has keywords (lower "ModelMesh")
    then "enabled_modelmesh_in_dsc" ∷ fixturenames
    else fixturenames

pub data TestOutcome : Type 0 where
  passed skipped failed : TestOutcome

pub data Status : Type 0 where
  passed_status skipped_status failed_status error_status : Status

-- The status line that `pytest_report_teststatus` writes, if it writes one.
unfoldable pub report_status : TestOutcome → String → Option Status
report_status passed when = if when == "call" then some passed_status else none
report_status skipped when = some skipped_status
report_status failed when = if when == "call" then some failed_status else some error_status
