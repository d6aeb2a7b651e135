-- ===== src/Session/Gather/Window.antt =====
-- The time window of must-gather.
use opendatahub_tests.Shared.{
  ℕ, ◌-◌, ◌<◌, ◌≤◌, String, ◌≡◌, true, false, has, List, Option, none, some, [], ◌∷◌, ◌==◌,
  if◌then◌else◌, arith, refl, lookup, eq_iff,
}
use opendatahub_tests.Session.Gather.{
  Table, calculate_must_gather_timer, insert_test_start_time, get_test_start_time,
  exception_interact, known_start,
}

lookup-insert :
    (rows : Table) (name other : String) (start : ℕ)
    → lookup other (insert_test_start_time rows name start)
      ≡ elim (lookup other rows) as (λ o. Option ℕ) [
        | some t ↦ some t
        | none ↦ if name == other then some start else none
      ]
unfolding insert_test_start_time
lookup-insert [] name other start = refl
lookup-insert ((n, t) ∷ rows) name other start = ground (arith, lookup-insert rows name other start)

-- When the collection is on and a test fails that is not marked to skip it and was first started at
-- a known time, not in the future, the logs of more than a minute are collected, and at least those
-- since the start.
pub exception_interact_window :
    (rows : Table) (markers : List String) (name : String) (start now : ℕ)
    → has markers "skip_must_gather" ≡ false
    → lookup name rows ≡ none
    → 0 < start
    → start ≤ now
    → (since : ℕ) × (exception_interact true markers
          (some (insert_test_start_time rows name start))
          name
          now
        ≡ some (start, since))
      × (60 < since)
      × (now - start ≤ since)
unfolding exception_interact calculate_must_gather_timer known_start get_test_start_time
exception_interact_window rows markers name start now kept fresh started past = (
  calculate_must_gather_timer now start,
  ground (arith, lookup-insert rows name name start, eq_iff name name),
  ground arith,
  ground arith,
)
