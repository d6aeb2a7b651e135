-- ===== src/Collector/Tests.antt =====
-- Concrete runs, and instances of the theorems on them.
use opendatahub_tests.Shared.{
  String, Bool, keep, true, false, not, ◌&&◌, Option, none, some, List, [], ◌∷◌, ◌==◌,
  if◌then◌else◌, any, split_on, drop_chars, ◌≡◌, refl,
}
use opendatahub_tests.Collector.Directories.{
  ok, err, file_not_found, Config, Item, get_base_dir, path_join, base_directory_name,
  set_must_gather_collector_values, set_must_gather_collector_directory,
  prepare_pytest_item_data_dir, get_must_gather_collector_dir,
}
use opendatahub_tests.Collector.Directories.Kept.{get_must_gather_collector_dir_lem}
use opendatahub_tests.Collector.Collection.{get_must_gather_image_info, collect_rhoai_must_gather}
use opendatahub_tests.Collector.Collection.Collected.{
  is_run, on_tree, archived, collect_rhoai_must_gather_lem,
}

abbrev item : Item
item = record {
  cls_name = some "TestModel";
  dirname = "/repo/tests/serving";
  basename = "test_model.py";
  name = "test_a[b c]";
}

item_directory :
    prepare_pytest_item_data_dir item (some "tests") "out"
    ≡ ok "out/serving/test_model/TestModel/test_a_b_c_"
unfolding prepare_pytest_item_data_dir split_on drop_chars
item_directory = refl

abbrev session_config : Config
session_config = set_must_gather_collector_values false none

abbrev test_config : Config
test_config = some (
    ("must_gather_base_directory", "must-gather-collected")
    ∷ ("collector_directory", "out/serving/test_model/TestModel/test_a_b_c_")
    ∷ [])

get_must_gather_collector_dir_lem_example :
    (get_must_gather_collector_dir (set_must_gather_collector_values true session_config)
      ≡ ok (path_join (get_base_dir true) base_directory_name))
    × (set_must_gather_collector_directory item (some "tests") "out" session_config ≡ ok test_config
        → (base : String) → get_must_gather_collector_dir session_config ≡ ok base
        → get_must_gather_collector_dir test_config
          ≡ prepare_pytest_item_data_dir item (some "tests") "out")
get_must_gather_collector_dir_lem_example =
    get_must_gather_collector_dir_lem true session_config test_config item (some "tests") "out"

abbrev images : Option (List String)
images = some ("quay.io/odh-must-gather@sha256:1" ∷ [])

collect_rhoai_must_gather_lem_example :
    let entries : List (String × Bool) = ("log", false) ∷ ("quay", true) ∷ [] in
    let (calls, end_) = collect_rhoai_must_gather images entries "a.zip" true "a" "out" "60" true in
    (any is_run calls ≡ not (get_must_gather_image_info images == ""))
    × (keep on_tree calls ≡ (
        if not (get_must_gather_image_info images == "") && true
        then archived "a" "out" (some ("quay", true))
        else []))
    × (end_ ≡ (
        if not (not (get_must_gather_image_info images == ""))
        then ok false
        else if true
        then ok true
        else err file_not_found))
collect_rhoai_must_gather_lem_example =
    collect_rhoai_must_gather_lem images (("log", false) ∷ ("quay", true) ∷ []) "a.zip" true "a"
      "out" "60" true
