-- ===== src/Collector/Collection.antt =====
-- `get_must_gather_image_info`, `get_must_gather_output_dir` and `collect_rhoai_must_gather` of
-- utilities/must_gather_collector.py.
pub mod Collected
use opendatahub_tests.Shared.{
  ℕ, String, Bool, true, false, not, ◌&&◌, Option, none, some, List, [], ◌∷◌, ◌++◌, ◌==◌,
  if◌then◌else◌, first, in_text, join,
}
use opendatahub_tests.Collector.Directories.{Error, Result, ok, err, file_not_found, path_join}
use opendatahub_tests.Collector.Command.{must_gather_command}

-- The images that the installed version of the operator names, if it is installed; an empty text
-- where there is none for must-gather.
unfoldable pub get_must_gather_image_info : Option (List String) → String
get_must_gather_image_info none = ""
get_must_gather_image_info (some related_images) =
    elim (first (λ image. in_text "odh-must-gather" image) related_images) [
      | none ↦ ""
      | some image ↦ image
    ]

-- The entries of the directory, and which of them are directories.
unfoldable pub get_must_gather_output_dir : String → List (String × Bool) → Result String
get_must_gather_output_dir must_gather_path entries =
    elim (first (λ (e : String × Bool). e.1) entries) [
      | none ↦ err file_not_found
      | some (item, is_dir) ↦ ok (path_join must_gather_path item)
    ]

pub data Call : Type 0 where
  run_command : String → Call
  write_output : String → Call
  -- the archive, made from a directory; the directory, removed; the archive's copy; the archive, removed
  make_archive : String → String → Call
  remove_tree unlink : String → Call
  copy : String → String → Call

-- `archive_name` is the name of the archive that is made, and `archive` whether the environment asks
-- for one. A run that finds no directory raises at the end.
unfoldable pub collect_rhoai_must_gather :
    Option (List String)
    → List (String × Bool)
    → String
    → Bool
    → String
    → String
    → String
    → Bool
    → List Call × Result Bool
unfolding get_must_gather_image_info get_must_gather_output_dir
collect_rhoai_must_gather related_images entries archive_name archive base_file_name target_dir
      since save_collection_output =
    let image = get_must_gather_image_info related_images in
    let gathered =
      run_command (must_gather_command image target_dir (join since "s") "" [])
      ∷ (if save_collection_output
          then write_output (path_join target_dir "output.log") ∷ []
          else []) in
    if image == ""
    then ([], ok false)
    else elim (get_must_gather_output_dir target_dir entries) as (λ _. List Call × Result Bool) [
      | err raised ↦ (gathered, err raised)
      | ok path ↦ (
        gathered
            ++ (if archive
                then make_archive base_file_name path
                  ∷ remove_tree path
                  ∷ copy archive_name (path_join target_dir archive_name)
                  ∷ unlink archive_name
                  ∷ []
                else []),
        ok archive,
      )
    ]
