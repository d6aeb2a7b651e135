-- ===== src/Collector/Directories/Kept.antt =====
-- The directory that is set is the directory that is read.
use opendatahub_tests.Shared.{
  String, Bool, Option, none, some, lookup, lookup-put, ok, err, ◌≡◌, refl, arith, Option-cases,
  inl, inr, ◌⊎◌,
}
use opendatahub_tests.Collector.Directories.{
  Error, Result, Config, Item, set_must_gather_collector_values,
  set_must_gather_collector_directory, prepare_pytest_item_data_dir, get_must_gather_collector_dir,
  get_base_dir, path_join, base_directory_name,
}

Fallible-cases {ℓ} :
    {A : Type ℓ} (r : Result A) → ((e : Error) × (r ≡ err e)) ⊎ ((a : A) × (r ≡ ok a))
Fallible-cases (err e) = inl (e, refl)
Fallible-cases (ok a) = inr (a, refl)

-- From the configuration of a session on, the collector's directory is that of the last test whose
-- directory was set, and before any the base directory.
pub get_must_gather_collector_dir_lem :
    (results_exist : Bool) (config later : Config) (item : Item) (tests_path : Option String)
    (output_dir : String)
    → (get_must_gather_collector_dir (set_must_gather_collector_values results_exist config)
        ≡ ok (path_join (get_base_dir results_exist) base_directory_name))
      × (set_must_gather_collector_directory item tests_path output_dir config ≡ ok later
          → (base : String) → get_must_gather_collector_dir config ≡ ok base
          → get_must_gather_collector_dir later
            ≡ prepare_pytest_item_data_dir item tests_path output_dir)
unfolding set_must_gather_collector_values set_must_gather_collector_directory
    get_must_gather_collector_dir
get_must_gather_collector_dir_lem results_exist none later item tests_path output_dir =
    (refl, λ h base r. ground (arith, h))
get_must_gather_collector_dir_lem results_exist (some config) later item tests_path output_dir = (
  refl,
  λ h base r. elim (Fallible-cases (prepare_pytest_item_data_dir item tests_path output_dir)) [
    | inl (raised, e) ↦ ground (arith, h, e)
    | inr (directory, e) ↦ elim (Option-cases (lookup "must_gather_base_directory" config)) [
      | inl b ↦ ground (arith, r, b)
      | inr (found, b) ↦ ground (
        arith,
        h,
        e,
        b,
        lookup-put "collector_directory" "must_gather_base_directory" directory config,
        lookup-put "collector_directory" "collector_directory" directory config,
      )
    ]
  ],
)
