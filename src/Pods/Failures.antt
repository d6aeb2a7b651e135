-- ===== src/Pods/Failures.antt =====
-- `verify_no_failed_pods` of utilities/infra.py, once the pods are there. The names of states come
-- from the client library, and are arguments.
pub mod Judged
use opendatahub_tests.Shared.{
  ℕ, suc, zero, String, Bool, true, false, ◌&&◌, ◌||◌, not, Option, none, some, List, [], ◌∷◌, ◌++◌,
  ◌==◌, if◌then◌else◌, has, any, all, nat_eq, length, keep, is_empty, given, map,
}
use opendatahub_tests.Serving.Modes.{is_mode, model_mesh}

-- The client library's names of states and phases.
pub record States : Type 0 where
  pub error : String
  pub crash_loop : String
  pub failed : String
  pub ready : String
  pub condition_true : String

pub record ContainerStatus : Type 0 where
  pub waiting : Option (Option String)
  pub terminated : Option (Option String)

pub record PodStatus : Type 0 where
  pub name : String
  pub init_containers : List ContainerStatus
  pub containers : List ContainerStatus
  pub phase : String
  -- types and statuses
  pub conditions : List (String × String)

-- The reason of a state, if there is one, is in the list.
abbrev pub reason_in : Option (Option String) → List String → Bool
reason_in none reasons = false
reason_in (some none) reasons = false
reason_in (some (some why)) reasons = has reasons why

-- Services of other modes than model mesh do not recover from a crash loop.
abbrev pub tolerates_crashes : Option String → Bool
tolerates_crashes mode = not (given mode) || is_mode mode model_mesh

unfoldable pub wait_errors : States → Option String → List String
wait_errors s mode =
    if tolerates_crashes mode
    then "InvalidImageName" ∷ []
    else "InvalidImageName" ∷ s.crash_loop ∷ []

unfoldable pub terminated_errors : States → Option String → List String
terminated_errors s mode =
    if tolerates_crashes mode then s.error ∷ [] else s.error ∷ s.crash_loop ∷ []

container_failed : States → Option String → ContainerStatus → Bool
container_failed s mode c =
    reason_in c.waiting (wait_errors s mode) || reason_in c.terminated (terminated_errors s mode)

unfoldable pub pod_failed : States → Option String → PodStatus → Bool
unfolding container_failed
pod_failed s mode pod =
    any (container_failed s mode) (pod.init_containers ++ pod.containers)
    || has (s.crash_loop ∷ s.failed ∷ []) pod.phase

unfoldable pub pod_ready : States → PodStatus → Bool
pod_ready s pod = any (λ c. c.0 == s.ready && c.1 == s.condition_true) pod.conditions

pub data Verdict : Type 0 where
  ready : Verdict
  failed_pods : List String → Verdict
  expired : Verdict

-- One sample: the failed pods, or whether all are ready; the length of the ready ones is compared.
unfoldable pub judge : States → Option String → List PodStatus → Option Verdict
judge s mode [] = none
judge s mode (pod ∷ pods) =
    let failed = map (λ (p : PodStatus). p.name) (keep (pod_failed s mode) (pod ∷ pods)) in
    if not (is_empty failed)
    then some (failed_pods failed)
    else if nat_eq (length (keep (pod_ready s) (pod ∷ pods))) (length (pod ∷ pods))
    then some ready
    else none

-- A sample is the list of the service's pods.
unfoldable pub verify_no_failed_pods : States → Option String → List (List PodStatus) → Verdict
verify_no_failed_pods s mode [] = expired
verify_no_failed_pods s mode (pods ∷ samples) =
    let rest = verify_no_failed_pods s mode samples in
    elim (judge s mode pods) [ none ↦ rest | some v ↦ v ]
