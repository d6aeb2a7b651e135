-- ===== src/Pods/Status.antt =====
-- `get_pod_container_error_status`, `get_not_running_pods` and the check inside
-- `wait_for_container_status` of utilities/general.py. The phases' names come from the client
-- library, and are arguments.
pub mod NotRunning
use opendatahub_tests.Shared.{
  ℕ, String, Bool, true, false, ◌&&◌, ◌||◌, not, Option, none, some, List, [], ◌∷◌, ◌++◌, ◌==◌,
  if◌then◌else◌, has, first, given,
}

-- A container: why it waits or was terminated (a state may come without a reason), and whether it
-- runs.
pub record Container : Type 0 where
  pub name : String
  pub waiting : Option (Option String)
  pub terminated : Option (Option String)
  pub running : Bool

pub record PodInstance : Type 0 where
  pub containers : List Container
  pub deletion_timestamp : Bool
  pub phase : String

-- A pod, and what reading it gives: nothing if it has disappeared, which raises.
pub record Pod : Type 0 where
  pub name : String
  pub instance_ : Option PodInstance

pub data Problem : Type 0 where
  reason : String → Problem
  waiting_state : Problem
  phase : String → Problem

-- The reason of the first container that waits, or the state itself if it has none.
unfoldable pub get_pod_container_error_status : List Container → Option Problem
get_pod_container_error_status [] = none
get_pod_container_error_status (c ∷ cs) = elim c.waiting [
  | none ↦ get_pod_container_error_status cs
  | some why ↦ elim why [
    | none ↦ some waiting_state
    | some text ↦ if text == "" then some waiting_state else some (reason text)
  ]
]

container_problem : String → List Container → List (String × Problem)
container_problem name cs = elim (get_pod_container_error_status cs) [
  | none ↦ []
  | some p ↦ (name, p) ∷ []
]

unfoldable pub pod_problems : List String → String → PodInstance → List (String × Problem)
unfolding container_problem
pod_problems running_phases name pod =
    container_problem name pod.containers
    ++ (if pod.deletion_timestamp || not (has running_phases pod.phase)
        then (name, phase pod.phase) ∷ []
        else [])

-- The loop stands inside the `try`: a pod that has disappeared ends it.
unfoldable pub get_not_running_pods : List String → List Pod → List (String × Problem)
get_not_running_pods running_phases [] = []
get_not_running_pods running_phases (pod ∷ pods) =
    let rest = get_not_running_pods running_phases pods in
    elim pod.instance_ [
      | none ↦ []
      | some found ↦ pod_problems running_phases pod.name found ++ rest
    ]

pub data Check : Type 0 where
  matches mismatch : Check

container_reason : Container → Option String
container_reason c = elim c.waiting [
  | some why ↦ why
  | none ↦ elim c.terminated [ some why ↦ why | none ↦ if c.running then some "Running" else none ]
]

-- The function that `wait_for_container_status` retries; every mismatch raises.
unfoldable pub get_matching_container_status : List Container → String → String → Check
unfolding container_reason
get_matching_container_status cs container_name expected_status =
    elim (first (λ c. c.name == container_name) cs) [
      | none ↦ mismatch
      | some c ↦ elim (container_reason c) [
        | none ↦ mismatch
        | some why ↦ if why == expected_status then matches else mismatch
      ]
    ]
