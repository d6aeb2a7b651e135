-- ===== src/Session/Gather.antt =====
-- When and for how long must-gather collects: `calculate_must_gather_timer`,
-- `pytest_exception_interact`, the insertion in `pytest_runtest_setup`, and the `Database` of
-- utilities/database.py.
pub mod Window
use opendatahub_tests.Shared.{
  ℕ, ◌+◌, ◌-◌, ◌<◌, ◌≤◌, zero, suc, String, ◌≡◌, Bool, true, false, ◌&&◌, ◌||◌, not, Option, none,
  some, List, [], ◌∷◌, ◌++◌, ◌==◌, if◌then◌else◌, has, first, given, ltb, arith, refl, join, lookup,
  ◌⊎◌, inl, inr, eq_iff,
}

abbrev pub default_duration : ℕ
default_duration = 300

-- `now` is the clock in seconds. A clock that went back gives a negative duration in the source,
-- and 0 here: neither is above 60.
unfoldable pub calculate_must_gather_timer : ℕ → ℕ → ℕ
calculate_must_gather_timer now test_start_time =
    if ltb 0 test_start_time
    then (let duration = now - test_start_time in
        if ltb 60 duration then duration else default_duration)
    else default_duration

-- The rows of the table, oldest first.
abbrev pub Table : Type 0
Table = List (String × ℕ)

unfoldable pub insert_test_start_time : Table → String → ℕ → Table
insert_test_start_time rows test_name start_time = rows ++ (test_name, start_time) ∷ []

-- `.first()` over the rows of that name; 0 where there is none.
unfoldable pub get_test_start_time : Table → String → ℕ
get_test_start_time rows test_name = elim (lookup test_name rows) [
  | none ↦ 0
  | some start_time ↦ start_time
]

-- A database that fails counts as one without the test.
unfoldable pub known_start : Option Table → String → ℕ
known_start none test_name = 0
known_start (some rows) test_name = get_test_start_time rows test_name

-- What `pytest_exception_interact` asks the collector for: the file name's number and the seconds.
unfoldable pub exception_interact : Bool → List String → Option Table → String → ℕ → Option (ℕ × ℕ)
exception_interact collect markers db test_name now =
    if collect && not (has markers "skip_must_gather")
    then (let start = known_start db test_name in
        some (start, calculate_must_gather_timer now start))
    else none
