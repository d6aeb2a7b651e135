-- ===== src/Serving/Readiness.antt =====
-- The second part of `create_isvc` of utilities/inference_utils.py: what it does between the
-- creation of the service and the `yield`. What the cluster shows is an argument.
pub mod Yielded
use opendatahub_tests.Shared.{
  String, Bool, true, false, ◌&&◌, ◌||◌, not, Option, none, some, List, [], ◌∷◌, ◌++◌, ◌==◌, any,
  if◌then◌else◌,
}
use opendatahub_tests.Serving.Modes.{model_mesh, is_mode}

-- A model status whose states are reported.
pub record ModelStatus : Type 0 where
  pub active_model_state : String
  pub target_model_state : String
  pub transition_status : Option String

-- A service of the namespace: its runtime's name, whether that runtime exists, and the mode in the
-- service's annotations.
pub record Neighbour : Type 0 where
  pub runtime_name : String
  pub runtime_exists : Bool
  pub deployment_mode : Option String

pub record Request : Type 0 where
  pub runtime : String
  pub deployment_mode : Option String
  pub wait : Bool
  pub wait_for_predictor_pods : Bool
  pub stop_resume : Bool

-- What is seen in time: the pods are good, the replicas are there, the services of the namespace, the
-- service is ready, deployed again or not; its model status when it got ready, in each sample, and at
-- the end.
pub record Seen : Type 0 where
  pub pods_good : Bool
  pub replicas_there : Bool
  pub neighbours : List Neighbour
  pub ready : Bool
  pub initial_status : Option ModelStatus
  pub samples : List (Option ModelStatus)
  pub model_status : Option ModelStatus

pub data Ending : Type 0 where
  yielded failed_pods missing_replicas resource_not_found expired not_loaded : Ending

-- What is done to the service.
pub data Call : Type 0 where
  clean_up deploy : Call

-- `_is_model_loaded`
unfoldable pub is_model_loaded : Option ModelStatus → Bool
is_model_loaded none = false
is_model_loaded (some status) =
    status.active_model_state == "Loaded"
    && status.target_model_state == "Loaded"
    && is_mode status.transition_status "UpToDate"

unfoldable pub wait_loaded : List (Option ModelStatus) → Bool
wait_loaded [] = false
wait_loaded (sample ∷ samples) =
    let rest = wait_loaded samples in if is_model_loaded sample then true else rest

-- The service of another runtime that is one of Model Mesh too.
abbrev pub is_other_mesh : String → Neighbour → Bool
is_other_mesh runtime n = not (n.runtime_name == runtime) && is_mode n.deployment_mode model_mesh

-- The loop over the services of the namespace: the calls, or `none` for the error of a service whose
-- runtime does not exist.
unfoldable pub recreate : String → List Neighbour → Option (List Call)
recreate runtime [] = some []
recreate runtime (n ∷ neighbours) =
    let later = recreate runtime neighbours in
    if not n.runtime_exists
    then none
    else if is_other_mesh runtime n
    then some (clean_up ∷ deploy ∷ [])
    else later

check_model_status : Option ModelStatus → Ending
check_model_status none = yielded
check_model_status (some status) = if is_model_loaded (some status) then yielded else not_loaded

wait_model : Seen → Ending
wait_model seen = elim seen.initial_status [
  | none ↦ check_model_status seen.model_status
  | some status ↦ if wait_loaded seen.samples then check_model_status seen.model_status else expired
]

wait_ready : Seen → Ending
wait_ready seen = if seen.ready then wait_model seen else expired

wait_service : Request → Seen → List Call × Ending
wait_service r seen =
    if not (r.wait && not r.stop_resume)
    then ([], yielded)
    else if is_mode r.deployment_mode model_mesh
    then (elim (recreate r.runtime seen.neighbours) [
      | none ↦ ([], resource_not_found)
      | some calls ↦ (calls, wait_ready seen)
    ])
    else ([], wait_ready seen)

unfoldable pub after_creation : Request → Seen → List Call × Ending
unfolding wait_service wait_ready wait_model check_model_status recreate
after_creation r seen =
    if r.wait_for_predictor_pods && not r.stop_resume
    then (if not seen.pods_good
        then ([], failed_pods)
        else if not seen.replicas_there
        then ([], missing_replicas)
        else wait_service r seen)
    else wait_service r seen
