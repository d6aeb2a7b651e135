-- ===== src/Session/Tests.antt =====
-- Sessions on concrete tests, clusters and tables, and instances of the theorems on them.
use opendatahub_tests.Shared.{
  keep, ℕ, ◌<◌, ◌≤◌, String, ◌≡◌, refl, true, false, ◌&&◌, ◌||◌, not, none, some, List, [], ◌∷◌,
  arith, any, all, is_empty, split_on,
}
use opendatahub_tests.Session.Markers.{
  Item, mark_item, in_default_paths, has_tier, add_default_tier2_marker,
}
use opendatahub_tests.Session.Markers.Tiers.{add_default_tier2_marker_lem}
use opendatahub_tests.Session.Collection.{
  group_item, group_items, add_upgrade_test, deployment_modes, no_groups, has_item,
  pytest_collection_modifyitems,
}
use opendatahub_tests.Session.Collection.Selection.{
  AllDistinct, options_of, pytest_collection_modifyitems_partition,
  pytest_collection_modifyitems_single, pytest_collection_modifyitems_both,
}
use opendatahub_tests.Session.Setup.{
  Cluster, GlobalConfig, ok, updated_global_config, get_operator_distribution,
  get_dsci_applications_namespace, truthy,
}
use opendatahub_tests.Session.Setup.Distribution.{Accepted, updated_global_config-ok}
use opendatahub_tests.Session.Gather.{exception_interact, insert_test_start_time}
use opendatahub_tests.Session.Gather.Window.{exception_interact_window}
use opendatahub_tests.Session.Operators.{Csv, check_operators, fail_if_missing_dependent_operators}
use opendatahub_tests.Session.Operators.Installed.{
  is_not_installed, is_empty-fail_if_missing, any-check_operators,
}

abbrev before_upgrade : Item
before_upgrade = record {
  uid = 1;
  nodeid = "tests/model_serving/test_a.py::test_before";
  keywords = "pre_upgrade" ∷ "rawdeployment" ∷ [];
  markers = "pre_upgrade" ∷ [];
}

abbrev after_upgrade : Item
after_upgrade = record {
  uid = 2;
  nodeid = "tests/model_serving/test_a.py::test_after";
  keywords = "post_upgrade" ∷ "serverless" ∷ [];
  markers = "post_upgrade" ∷ [];
}

abbrev registry_test : Item
registry_test = record {
  uid = 3;
  nodeid = "tests/model_registry/test_b.py::test_rest";
  keywords = [];
  markers = "sanity" ∷ [];
}

abbrev collected : List Item
collected = before_upgrade ∷ after_upgrade ∷ registry_test ∷ []

raw_groups : group_items ("rawdeployment" ∷ []) no_groups collected ≡ record {
  pre_upgrade_tests = before_upgrade ∷ [];
  post_upgrade_tests = [];
  non_upgrade_tests = after_upgrade ∷ registry_test ∷ [];
}
unfolding group_items group_item
raw_groups = refl

pytest_collection_modifyitems_partition_example :
    let result = pytest_collection_modifyitems (options_of true false none) collected in
    (has_item result.items before_upgrade ≡ true → has_item collected before_upgrade ≡ true)
    × (has_item result.deselected before_upgrade
        ≡ (has_item collected before_upgrade && not (has_item result.items before_upgrade)))
pytest_collection_modifyitems_partition_example =
    pytest_collection_modifyitems_partition (options_of true false none) collected before_upgrade

pytest_collection_modifyitems_single_example :
    ((pytest_collection_modifyitems (options_of true false (some "rawdeployment")) collected).items
      ≡ before_upgrade ∷ [])
    × ((pytest_collection_modifyitems
          (options_of false true (some "rawdeployment"))
          collected).items
        ≡ [])
    × ((pytest_collection_modifyitems
          (options_of false false (some "rawdeployment"))
          collected).items
        ≡ after_upgrade ∷ record registry_test { markers = "sanity" ∷ "tier2" ∷ [] } ∷ [])
unfolding deployment_modes add_upgrade_test add_default_tier2_marker split_on mark_item
    in_default_paths has_tier
pytest_collection_modifyitems_single_example =
    pytest_collection_modifyitems_single (some "rawdeployment") collected

pytest_collection_modifyitems_both_example :
    let run = (pytest_collection_modifyitems (options_of true true none) collected).items in
    (has_item run after_upgrade ≡ true) × AllDistinct run
unfolding deployment_modes add_upgrade_test
pytest_collection_modifyitems_both_example =
    pytest_collection_modifyitems_both none collected after_upgrade

add_default_tier2_marker_lem_example :
    let marked = add_default_tier2_marker collected in
    (all (λ i. not (in_default_paths i) || has_tier i) marked ≡ true)
    × (keep (λ i. not (in_default_paths i)) marked ≡ keep (λ i. not (in_default_paths i)) collected)
    × (add_default_tier2_marker marked ≡ marked)
add_default_tier2_marker_lem_example = add_default_tier2_marker_lem collected

abbrev upstream_cluster : Cluster
upstream_cluster = record { release_name = some "Open Data Hub"; dsci = some (some "opendatahub") }

abbrev configured : GlobalConfig
configured = record {
  distribution = "downstream";
  operator_namespace = "redhat-ods-operator";
  applications_namespace = "redhat-ods-applications";
}

abbrev upstream_config : GlobalConfig
upstream_config = record {
  distribution = "upstream";
  operator_namespace = "opendatahub-operators";
  applications_namespace = "opendatahub";
}

upstream_accepted : updated_global_config upstream_cluster configured ≡ ok upstream_config
unfolding updated_global_config get_operator_distribution get_dsci_applications_namespace truthy
upstream_accepted = refl

updated_global_config-ok_example :
    (upstream_cluster.dsci ≡ some (some "opendatahub"))
    × ((name : String) × (upstream_cluster.release_name ≡ some name)
        × Accepted name configured upstream_config)
updated_global_config-ok_example =
    updated_global_config-ok upstream_cluster configured upstream_config upstream_accepted

exception_interact_window_example :
    (since : ℕ) × (exception_interact true
        ("smoke" ∷ [])
        (some (insert_test_start_time [] "test_a" 1000))
        "test_a"
        1500
      ≡ some (1000, since))
    × (60 < since)
    × (500 ≤ since)
exception_interact_window_example =
    exception_interact_window [] ("smoke" ∷ []) "test_a" 1000 1500 refl refl (omega arith)
      (omega arith)

abbrev operators_found : List Csv
operators_found =
    record { name = "servicemesh.v2"; status = "Succeeded" }
    ∷ record { name = "serverless.v1"; status = "Installing" }
    ∷ []

is_empty-fail_if_missing_example :
    is_empty (fail_if_missing_dependent_operators (some "servicemesh,serverless") operators_found)
    ≡ false
unfolding split_on
is_empty-fail_if_missing_example = is_empty-fail_if_missing "servicemesh,serverless" operators_found

any-check_operators_example :
    any is_not_installed (check_operators ("servicemesh" ∷ "serverless" ∷ []) operators_found [])
    ≡ true
any-check_operators_example =
    any-check_operators ("servicemesh" ∷ "serverless" ∷ []) operators_found []
