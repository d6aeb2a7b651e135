-- ===== src/Cluster/Downloads.antt =====
-- The download of the command line tool in utilities/infra.py.
pub mod Links
use Prim.Native.String
use opendatahub_tests.Shared.{
  ℕ, String, Bool, true, false, not, ◌&&◌, ◌||◌, Option, none, some, List, [], ◌∷◌, ◌++◌, ◌==◌,
  if◌then◌else◌, keep, join, in_text, lower, split_on,
}
use opendatahub_tests.Cluster.Errors.{Lookup, ok, err, value_error}

-- `text.endswith(end)`
unfoldable pub ends_with : String → String → Bool
ends_with String.[] end_ = end_ == ""
ends_with (String.◌∷◌ c s) end_ = String.◌∷◌ c s == end_ || ends_with s end_

unfoldable pub get_machine_platform : String → String
get_machine_platform os_machine_type =
    if os_machine_type == "x86_64" then "amd64" else os_machine_type

-- The system's name, and the version of macOS or an empty text.
unfoldable pub get_os_system : String → String → String
get_os_system system mac_ver =
    let os_system = lower system in
    if os_system == "darwin" && not (mac_ver == "") then "mac" else os_system

unfoldable pub is_oc_link : String → String → String → Bool
unfolding ends_with
is_oc_link os_system machine_platform href =
    (ends_with href "oc.tar" || ends_with href "oc.zip")
    && in_text os_system href
    && in_text machine_platform href

unfoldable pub get_oc_console_cli_download_link : String → String → List String → Lookup String
unfolding is_oc_link ends_with
get_oc_console_cli_download_link os_system machine_platform links =
    elim (keep (is_oc_link os_system machine_platform) links) [
      | [] ↦ err value_error
      | link ∷ rest ↦ ok link
    ]

-- `parts[-1]` of a list that is not empty.
last_or : String → List String → String
last_or d [] = d
last_or d (x ∷ xs) = last_or x xs

-- `os.path.join` of a directory without a slash at its end and a relative name.
path_join : String → String → String
path_join directory name = join directory (join "/" name)

pub data FileCall : Type 0 where
  fetch write_file extract_zip extract_tar remove : String → FileCall
  make_executable : String → FileCall

-- The calls, and the path of the tool. `none`: several files, or none, were extracted. `is_file` is
-- whether the archive is still there.
unfoldable pub download_oc_console_cli :
    String → String → List String → Bool → List FileCall × Option String
unfolding ends_with last_or path_join
download_oc_console_cli link tmpdir extracted_filenames is_file =
    let local_file_name = path_join tmpdir (last_or "" (split_on 47 link)) in
    let calls =
      fetch link
      ∷ write_file local_file_name
      ∷ (if ends_with link ".zip" then extract_zip local_file_name else extract_tar local_file_name)
      ∷ [] in
    let removed = if is_file then remove local_file_name ∷ [] else [] in
    elim extracted_filenames [
      | [] ↦ (calls ++ removed, none)
      | name ∷ [] ↦ (
        calls ++ (removed ++ (make_executable (path_join tmpdir name) ∷ [])),
        some (path_join tmpdir name),
      )
      | name ∷ other ∷ rest ↦ (calls, none)
    ]
