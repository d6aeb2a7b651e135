-- ===== src/Session/Operators/Installed.antt =====
-- When the check of the operators passes.
use opendatahub_tests.Shared.{
  String, ◌≡◌, Bool, true, false, ◌&&◌, ◌||◌, not, none, some, List, [], ◌∷◌, ◌++◌, arith, refl,
  ◌==◌, starts_with, split_on, all, any, any-append, first, is_empty,
}
use opendatahub_tests.Session.Operators.{
  Csv, Missing, not_succeeded, not_installed, check_operator, check_operators,
  fail_if_missing_dependent_operators,
}

-- The first version of the operator that the cluster lists has succeeded.
abbrev pub first_succeeded : List Csv → String → Bool
first_succeeded csvs operator =
    elim (first (λ csv. starts_with csv.name operator) csvs) as (λ o. Bool) [
      | none ↦ false
      | some csv ↦ csv.status == "Succeeded"
    ]

is_empty-append : (xs ys : List Missing) → is_empty (xs ++ ys) ≡ (is_empty xs && is_empty ys)
is_empty-append [] ys = refl
is_empty-append (x ∷ xs) ys = refl

is_empty-check_operator :
    (operator : String) (csvs : List Csv) (missing : List Missing)
    → is_empty (check_operator operator csvs missing)
      ≡ (is_empty missing && first_succeeded csvs operator)
unfolding check_operator
is_empty-check_operator operator [] missing =
    ground (arith, is_empty-append missing (not_installed operator ∷ []))
is_empty-check_operator operator (csv ∷ csvs) missing = ground (
  arith,
  is_empty-check_operator operator csvs missing,
  is_empty-check_operator operator csvs (missing ++ not_succeeded operator ∷ []),
  is_empty-append missing (not_succeeded operator ∷ []),
)

is_empty-check_operators :
    (operators : List String) (csvs : List Csv) (missing : List Missing)
    → is_empty (check_operators operators csvs missing)
      ≡ (is_empty missing && all (first_succeeded csvs) operators)
unfolding check_operators
is_empty-check_operators [] csvs missing = ground arith
is_empty-check_operators (operator ∷ operators) csvs missing = ground (
  arith,
  is_empty-check_operators operators csvs (check_operator operator csvs missing),
  is_empty-check_operator operator csvs missing,
)

-- The check passes exactly if, for each operator of the comma-separated list, the first listed
-- version whose name starts with the operator's has succeeded.
pub is_empty-fail_if_missing :
    (operators : String) (csvs : List Csv)
    → is_empty (fail_if_missing_dependent_operators (some operators) csvs)
      ≡ (operators == "" || all (first_succeeded csvs) (split_on b',' operators))
unfolding fail_if_missing_dependent_operators
is_empty-fail_if_missing operators csvs =
    ground (arith, is_empty-check_operators (split_on b',' operators) csvs [])

abbrev pub is_not_installed : Missing → Bool
is_not_installed (not_succeeded operator) = false
is_not_installed (not_installed operator) = true

abbrev pub has_succeeded : List Csv → String → Bool
has_succeeded csvs operator =
    any (λ csv. starts_with csv.name operator && csv.status == "Succeeded") csvs

any-check_operator :
    (operator : String) (csvs : List Csv) (missing : List Missing)
    → any is_not_installed (check_operator operator csvs missing)
      ≡ (any is_not_installed missing || not (has_succeeded csvs operator))
unfolding check_operator
any-check_operator operator [] missing =
    ground (arith, any-append is_not_installed missing (not_installed operator ∷ []))
any-check_operator operator (csv ∷ csvs) missing = ground (
  arith,
  any-check_operator operator csvs missing,
  any-check_operator operator csvs (missing ++ not_succeeded operator ∷ []),
  any-append is_not_installed missing (not_succeeded operator ∷ []),
)

-- Some operator is reported as not installed exactly if, for one of the operators, no listed
-- version that its name starts has succeeded: an operator that is installed and has not succeeded
-- is reported as not installed too.
pub any-check_operators :
    (operators : List String) (csvs : List Csv) (missing : List Missing)
    → any is_not_installed (check_operators operators csvs missing)
      ≡ (any is_not_installed missing || not (all (has_succeeded csvs) operators))
unfolding check_operators
any-check_operators [] csvs missing = ground arith
any-check_operators (operator ∷ operators) csvs missing = ground (
  arith,
  any-check_operators operators csvs (check_operator operator csvs missing),
  any-check_operator operator csvs missing,
)
