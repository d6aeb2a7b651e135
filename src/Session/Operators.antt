-- ===== src/Session/Operators.antt =====
-- `fail_if_missing_dependent_operators` of conftest.py.
pub mod Installed
use opendatahub_tests.Shared.{
  ℕ, String, Bool, Option, none, some, List, [], ◌∷◌, ◌++◌, ◌==◌, if◌then◌else◌, starts_with,
  split_on,
}

pub record Csv : Type 0 where
  pub name : String
  pub status : String

pub data Missing : Type 0 where
  not_succeeded not_installed : String → Missing

-- The inner `for … else` for one operator: `else` runs unless the loop breaks.
unfoldable pub check_operator : String → List Csv → List Missing → List Missing
check_operator operator [] missing = missing ++ not_installed operator ∷ []
check_operator operator (csv ∷ csvs) missing =
    let skipped = check_operator operator csvs missing in
    let waiting = check_operator operator csvs (missing ++ not_succeeded operator ∷ []) in
    if starts_with csv.name operator
    then (if csv.status == "Succeeded" then missing else waiting)
    else skipped

unfoldable pub check_operators : List String → List Csv → List Missing → List Missing
check_operators [] csvs missing = missing
check_operators (operator ∷ operators) csvs missing =
    check_operators operators csvs (check_operator operator csvs missing)

-- What the fixture fails with; an empty list is no failure.
unfoldable pub fail_if_missing_dependent_operators : Option String → List Csv → List Missing
fail_if_missing_dependent_operators none csvs = []
fail_if_missing_dependent_operators (some operators) csvs =
    if operators == "" then [] else check_operators (split_on b',' operators) csvs []
