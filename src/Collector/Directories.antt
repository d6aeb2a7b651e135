-- ===== src/Collector/Directories.antt =====
-- The directories of utilities/must_gather_collector.py. The configuration's part for the collector is
-- a dictionary, which may not be there yet.
pub mod Kept
pub use opendatahub_tests.Shared.{ok, err}
use Prim.Native.String
use Prim.Native.String.{count}
use Prim.Native.Char.{code}
use opendatahub_tests.Shared.{
  ℕ, zero, suc, ◌-◌, String, Bool, true, false, not, ◌&&◌, ◌||◌, Option, none, some, List, [], ◌∷◌,
  ◌==◌, if◌then◌else◌, lookup, put, join, starts_with, drop_chars, leb, nat_eq, split_on, Fallible,
  ◌>>=◌,
}

pub data Error : Type 0 where
  key_error assertion_error file_not_found invalid_arguments : Error

abbrev pub Result {ℓ} : Type ℓ → Type ℓ
Result A = Fallible Error A

ends_with_slash : String → Bool
ends_with_slash String.[] = false
ends_with_slash (String.◌∷◌ c s) =
    let rest = ends_with_slash s in if s == "" then nat_eq (code c) 47 else rest

-- `os.path.join(path, name)`
unfoldable pub path_join : String → String → String
unfolding ends_with_slash
path_join path name =
    if starts_with name "/"
    then name
    else if path == "" || ends_with_slash path
    then join path name
    else join path (join "/" name)

abbrev pub base_directory_name : String
base_directory_name = "must-gather-collected"

abbrev pub base_results_dir : String
base_results_dir = "/home/odh/opendatahub-tests/"

unfoldable pub get_base_dir : Bool → String
unfolding path_join ends_with_slash
get_base_dir results_exist = if results_exist then path_join base_results_dir "results" else ""

abbrev pub Config : Type 0
Config = Option (List (String × String))

unfoldable pub set_must_gather_collector_values : Bool → Config → Config
unfolding get_base_dir path_join ends_with_slash
set_must_gather_collector_values results_exist config = some (
    ("must_gather_base_directory", path_join (get_base_dir results_exist) base_directory_name) ∷ [])

-- The part of the text behind the last place where it is split at `needle`, if it is split at all; the
-- number is of characters that are still to be passed over.
behind_last : String → ℕ → String → Option String
behind_last needle skip String.[] = none
behind_last needle (suc skip) (String.◌∷◌ c s) = behind_last needle skip s
behind_last needle zero (String.◌∷◌ c s) =
    let later = behind_last needle (count needle - 1) s in
    let next = behind_last needle zero s in
    let rest = drop_chars (count needle) (String.◌∷◌ c s) in
    if starts_with (String.◌∷◌ c s) needle
    then (elim later [ none ↦ some rest | some r ↦ some r ])
    else next

-- `text.split(needle)[-1]`
last_part : String → String → String
unfolding behind_last
last_part needle text = elim (behind_last needle 0 text) [ none ↦ text | some part ↦ part ]

-- `text.partition(".py")[0]`
before_py : String → String
before_py String.[] = String.[]
before_py (String.◌∷◌ c s) =
    let rest = before_py s in
    if starts_with (String.◌∷◌ c s) ".py" then String.[] else String.◌∷◌ c rest

-- What `\w`, the dot and the dash match, in ASCII.
is_plain : ℕ → Bool
is_plain n =
    (leb 48 n && leb n 57)
    || (leb 65 n && leb n 90)
    || (leb 97 n && leb n 122)
    || nat_eq n 95
    || nat_eq n 46
    || nat_eq n 45

unfoldable pub sanitized : String → String
unfolding is_plain
sanitized String.[] = String.[]
sanitized (String.◌∷◌ c s) =
    let rest = sanitized s in if is_plain (code c) then String.◌∷◌ c rest else String.◌∷◌ "_" rest

last_name : List String → String
last_name [] = ""
last_name (x ∷ []) = x
last_name (x ∷ y ∷ rest) = last_name (y ∷ rest)

-- An item: its class, if it has one, the folder and the name of its file, and its own name.
pub record Item : Type 0 where
  pub cls_name : Option String
  pub dirname : String
  pub basename : String
  pub name : String

-- The directory that is made for the item; `tests_path` is pytest's setting.
unfoldable pub prepare_pytest_item_data_dir : Item → Option String → String → Result String
unfolding path_join ends_with_slash last_part behind_last before_py sanitized is_plain last_name
prepare_pytest_item_data_dir item none output_dir = err assertion_error
prepare_pytest_item_data_dir item (some tests_path) output_dir =
    let last_folder = last_name (split_on 47 item.dirname) in
    let fspath_split_str : String = if tests_path == last_folder then "" else "/" in
    let folder = last_part (join "/" (join tests_path fspath_split_str)) item.dirname in
    let cls_name : String = elim item.cls_name [ none ↦ "" | some c ↦ c ] in
    if tests_path == ""
    then err assertion_error
    else ok (
        path_join
          (path_join (path_join (path_join output_dir folder) (before_py item.basename)) cls_name)
          (sanitized item.name))

unfoldable pub set_must_gather_collector_directory :
    Item → Option String → String → Config → Result Config
unfolding prepare_pytest_item_data_dir path_join sanitized
set_must_gather_collector_directory item tests_path directory_path none = err key_error
set_must_gather_collector_directory item tests_path directory_path (some config) = do
  directory ← prepare_pytest_item_data_dir item tests_path directory_path
  ok (some (put "collector_directory" directory config))

-- The default of the look-up is read whether or not it is needed.
unfoldable pub get_must_gather_collector_dir : Config → Result String
get_must_gather_collector_dir none = err key_error
get_must_gather_collector_dir (some config) = elim (lookup "must_gather_base_directory" config) [
  | none ↦ err key_error
  | some base ↦ elim (lookup "collector_directory" config) [
    | none ↦ ok base
    | some directory ↦ ok directory
  ]
]
