-- ===== src/Pods/Waiting.antt =====
-- `wait_for_pods_running` of utilities/general.py, and `check_pod_status_in_time`,
-- `wait_for_route_timeout`, `wait_for_replicas_in_deployment` and the first loop of
-- `wait_for_inference_deployment_replicas` of utilities/infra.py. The time is up where the list of
-- samples ends.
pub mod Runs
pub mod Counts
use opendatahub_tests.Shared.{
  ℕ, suc, zero, ◌+◌, String, Bool, true, false, ◌&&◌, ◌||◌, not, Option, none, some, List, [], ◌∷◌,
  ◌++◌, ◌==◌, if◌then◌else◌, has, leb, nat_eq, length,
}

pub data Waited : Type 0 where
  -- the pods are running; the time is up and the last sample was bad; the time is up otherwise
  running expired unknown : Waited

-- A sample is whether there are pods that are not running.
at_timeout : Bool → Waited
at_timeout bad = if bad then expired else unknown

check_samples : ℕ → ℕ → Bool → List Bool → Waited
check_samples number current_check last_sample [] = at_timeout last_sample
check_samples number current_check last_sample (true ∷ samples) =
    check_samples number 0 true samples
check_samples number current_check last_sample (false ∷ samples) =
    let more = check_samples number (current_check + 1) false samples in
    if leb number (current_check + 1) then running else more

unfoldable pub wait_for_pods_running : ℕ → List Bool → Waited
unfolding check_samples at_timeout
wait_for_pods_running number_of_consecutive_checks samples =
    check_samples number_of_consecutive_checks 0 false samples

-- A sample is the pod's phase, where the pod could be read. `false`: the assertion failed.
unfoldable pub check_pod_status_in_time : List String → List (Option String) → Bool
check_pod_status_in_time status [] = true
check_pod_status_in_time status (none ∷ samples) = check_pod_status_in_time status samples
check_pod_status_in_time status (some phase ∷ samples) =
    let rest = check_pod_status_in_time status samples in if has status phase then rest else false

-- A sample is the route's timeout annotation. `false`: the time is up.
count_route : ℕ → String → List (Option String) → Bool
count_route found route_timeout [] = false
count_route found route_timeout (none ∷ samples) = count_route found route_timeout samples
count_route found route_timeout (some value ∷ samples) =
    let rest = count_route found route_timeout samples in
    let more = count_route (found + 1) route_timeout samples in
    if not (value == route_timeout) then rest else if nat_eq (found + 1) 2 then true else more

unfoldable pub wait_for_route_timeout : String → List (Option String) → Bool
unfolding count_route
wait_for_route_timeout route_timeout samples = count_route 0 route_timeout samples

-- A sample is the number of replicas in the deployment's specification, where it could be read.
unfoldable pub wait_for_replicas_in_deployment : ℕ → List (Option ℕ) → Bool
wait_for_replicas_in_deployment replicas [] = false
wait_for_replicas_in_deployment replicas (none ∷ samples) =
    wait_for_replicas_in_deployment replicas samples
wait_for_replicas_in_deployment replicas (some n ∷ samples) =
    let rest = wait_for_replicas_in_deployment replicas samples in
    if nat_eq n replicas then true else rest

pub data Deployments {ℓ} (D : Type ℓ) : Type ℓ where
  found : List D → Deployments D
  -- the time is up: the sampler's error, or the number that the last list had
  failed_call : Deployments D
  unexpected_count : ℕ → Deployments D

-- A sample is a list of deployments; a call that raises gives none. `last_exp` is whether the
-- sampler's error carries an exception, and `seen` the length of `deployment_list`.
wait_count {ℓ} : {D : Type ℓ} → ℕ → Bool → ℕ → List (List D) → Deployments D
wait_count expected last_exp seen [] = if last_exp then failed_call else unexpected_count seen
wait_count expected last_exp seen (deployments ∷ samples) =
    let rest = wait_count expected last_exp (length deployments) samples in
    if nat_eq (length deployments) expected then found deployments else rest

unfoldable pub wait_for_deployments {ℓ} : {D : Type ℓ} → ℕ → Bool → List (List D) → Deployments D
unfolding wait_count
wait_for_deployments expected_num_deployments last_exp samples =
    wait_count expected_num_deployments last_exp 0 samples
