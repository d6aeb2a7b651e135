-- ===== src/Pods/Tests.antt =====
-- Concrete pods and samples, and instances of the theorems on them.
use Prim.Native.String.{count}
use opendatahub_tests.Shared.{
  ◌+◌, ◌≤◌, String, ◌≡◌, refl, true, false, ◌&&◌, none, some, List, [], ◌∷◌, is_empty, in_text, leb,
  length, all,
}
use opendatahub_tests.Pods.Images.{validate_container_images}
use opendatahub_tests.Pods.Images.Valid.{is_empty-validate_container_images}
use opendatahub_tests.Pods.Status.{PodInstance, get_not_running_pods}
use opendatahub_tests.Pods.Status.NotRunning.{is_empty-get_not_running_pods}
use opendatahub_tests.Pods.Waiting.{
  wait_for_pods_running, running, wait_for_route_timeout, wait_for_deployments, unexpected_count,
  wait_for_replicas_in_deployment,
}
use opendatahub_tests.Pods.Waiting.Runs.{wait_for_pods_running-eq}
use opendatahub_tests.Pods.Waiting.Counts.{wait_for_route_timeout-eq, wait_for_deployments-eq}
use opendatahub_tests.Serving.Modes.{in_modes, raw_deployment_modes}
use opendatahub_tests.Pods.Deployed.{
  Deployment, wait_for_inference_deployment_replicas, Condition,
  wait_for_oauth_openshift_deployment,
}
use opendatahub_tests.Pods.Deployed.Rollout.{wait_for_oauth_openshift_deployment_iff}
use opendatahub_tests.Pods.Deployed.Outcomes.{
  is_up, wait_for_inference_deployment_replicas-deployed,
}
use opendatahub_tests.Pods.Failures.{
  States, PodStatus, failed_pods, verify_no_failed_pods, pod_failed, pod_ready, wait_errors,
  terminated_errors,
}
use opendatahub_tests.Pods.Failures.Judged.{verify_no_failed_pods-eq}
use opendatahub_tests.Pods.Kueue.{
  QueuedPod, check_gated_pods_and_running_pods, is_running_pod, is_gated_pod,
}
use opendatahub_tests.Pods.Kueue.Totals.{check_gated_pods_and_running_pods-eq}
use opendatahub_tests.Pods.Names.{generate_random_name}
use opendatahub_tests.Pods.Names.Lengths.{generate_random_name_lem}

is_empty-validate_container_images_example :
    is_empty (
      validate_container_images "registry.redhat.io"
        (record { containers = "quay.io/a:latest" ∷ []; init_containers = "ose-oauth" ∷ [] })
        []
        ("oauth" ∷ []))
    ≡ false
unfolding in_text
is_empty-validate_container_images_example =
    is_empty-validate_container_images "registry.redhat.io"
      (record { containers = "quay.io/a:latest" ∷ []; init_containers = "ose-oauth" ∷ [] }) []
      ("oauth" ∷ [])

abbrev pulling : PodInstance
pulling = record {
  containers =
      record {
        name = "main";
        waiting = some (some "ImagePullBackOff");
        terminated = none;
        running = false;
      }
      ∷ [];
  deletion_timestamp = false;
  phase = "Pending";
}

gone_pod_hides_next :
    get_not_running_pods ("Running" ∷ []) (
      record { name = "a"; instance_ = none }
      ∷ record { name = "b"; instance_ = some pulling }
      ∷ [])
    ≡ []
unfolding get_not_running_pods
gone_pod_hides_next = refl

is_empty-get_not_running_pods_example :
    is_empty (
      get_not_running_pods ("Running" ∷ []) (
        record { name = "b"; instance_ = some pulling }
        ∷ record { name = "a"; instance_ = none }
        ∷ []))
    ≡ false
is_empty-get_not_running_pods_example =
    is_empty-get_not_running_pods ("Running" ∷ []) (
      record { name = "b"; instance_ = some pulling }
      ∷ record { name = "a"; instance_ = none }
      ∷ [])

wait_for_pods_running-eq_example :
    wait_for_pods_running 3 (false ∷ true ∷ false ∷ false ∷ false ∷ true ∷ []) ≡ running
wait_for_pods_running-eq_example =
    wait_for_pods_running-eq 2 (false ∷ true ∷ false ∷ false ∷ false ∷ true ∷ [])

wait_for_route_timeout-eq_example :
    wait_for_route_timeout "600s" (some "30s" ∷ some "600s" ∷ none ∷ some "600s" ∷ []) ≡ true
wait_for_route_timeout-eq_example =
    wait_for_route_timeout-eq "600s" (some "30s" ∷ some "600s" ∷ none ∷ some "600s" ∷ [])

wait_for_deployments-eq_example :
    let none_yet : List String = [] in
    wait_for_deployments 2 false (none_yet ∷ ("predictor" ∷ []) ∷ []) ≡ unexpected_count 1
wait_for_deployments-eq_example = wait_for_deployments-eq 2 false ([] ∷ ("predictor" ∷ []) ∷ [])

abbrev states : States
states = record {
  error = "Error";
  crash_loop = "CrashLoopBackOff";
  failed = "Failed";
  ready = "Ready";
  condition_true = "True";
}

abbrev ready_pod : PodStatus
ready_pod = record {
  name = "predictor-a";
  init_containers = [];
  containers = record { waiting = none; terminated = none } ∷ [];
  phase = "Running";
  conditions = ("Ready", "True") ∷ [];
}

abbrev crashing_pod : PodStatus
crashing_pod = record {
  name = "predictor-b";
  init_containers = [];
  containers = record { waiting = some (some "CrashLoopBackOff"); terminated = none } ∷ [];
  phase = "Running";
  conditions = [];
}

verify_no_failed_pods-eq_example :
    verify_no_failed_pods states
      (some "RawDeployment")
      ([] ∷ (ready_pod ∷ crashing_pod ∷ []) ∷ (ready_pod ∷ []) ∷ [])
    ≡ failed_pods ("predictor-b" ∷ [])
unfolding pod_failed pod_ready wait_errors terminated_errors
verify_no_failed_pods-eq_example =
    verify_no_failed_pods-eq states (some "RawDeployment")
      ([] ∷ (ready_pod ∷ crashing_pod ∷ []) ∷ (ready_pod ∷ []) ∷ [])

abbrev queued : List QueuedPod
queued =
    record { phase = "Running"; conditions = [] }
    ∷ record {
      phase = "Pending";
      conditions =
          record { type_ = "PodScheduled"; status = "False"; reason = "SchedulingGated" } ∷ [];
    }
    ∷ record { phase = "Failed"; conditions = [] }
    ∷ []

check_gated_pods_and_running_pods-eq_example :
    let counts = check_gated_pods_and_running_pods queued in
    (counts.0 ≡ 1) × (counts.1 ≡ 1) × (counts.0 + counts.1 ≤ 3)
unfolding is_running_pod is_gated_pod
check_gated_pods_and_running_pods-eq_example = check_gated_pods_and_running_pods-eq queued

generate_random_name_lem_example :
    ((leb 1 8 && leb 8 32) ≡ true
      → (name : String) × (generate_random_name "isvc" 8 "0123456789abcdef0123456789abcdef"
          ≡ some name)
        × (count name ≡ 13))
    × ((leb 1 8 && leb 8 32) ≡ false
        → generate_random_name "isvc" 8 "0123456789abcdef0123456789abcdef" ≡ none)
generate_random_name_lem_example =
    generate_random_name_lem "isvc" 8 "0123456789abcdef0123456789abcdef" refl

abbrev predictor : Deployment
predictor = record {
  name = "predictor";
  exists = true;
  replica_samples = none ∷ some 1 ∷ some 2 ∷ [];
  replicas_ready = true;
}

wait_for_inference_deployment_replicas-deployed_example :
    (length (predictor ∷ []) ≡ 1)
    × (all (is_up (in_modes (some "RawDeployment") raw_deployment_modes) 2) (predictor ∷ []) ≡ true)
unfolding wait_for_inference_deployment_replicas wait_for_deployments
    wait_for_replicas_in_deployment
wait_for_inference_deployment_replicas-deployed_example =
    wait_for_inference_deployment_replicas-deployed (some "RawDeployment") (some 2) 1 false
      ([] ∷ (predictor ∷ []) ∷ []) (predictor ∷ []) refl

abbrev progressing : String → List Condition
progressing reason = ("Available", "MinimumReplicasAvailable") ∷ ("Progressing", reason) ∷ []

wait_for_oauth_openshift_deployment_iff_example :
    wait_for_oauth_openshift_deployment
      ([] ∷ progressing "ReplicaSetUpdated" ∷ [] ∷ progressing "NewReplicaSetAvailable" ∷ [] ∷ [])
    ≡ true
wait_for_oauth_openshift_deployment_iff_example =
    (wait_for_oauth_openshift_deployment_iff (
        []
        ∷ progressing "ReplicaSetUpdated"
        ∷ []
        ∷ progressing "NewReplicaSetAvailable"
        ∷ []
        ∷ [])).1
      (
        [] ∷ [],
        [] ∷ [],
        [] ∷ [],
        progressing "ReplicaSetUpdated",
        progressing "NewReplicaSetAvailable",
        refl,
        refl,
        refl,
      )
