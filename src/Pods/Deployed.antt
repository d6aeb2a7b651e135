-- ===== src/Pods/Deployed.antt =====
-- The rest of `wait_for_inference_deployment_replicas` of utilities/infra.py, and
-- `wait_for_pods_by_labels`, `wait_for_oauth_openshift_deployment` and `download_model_data` of
-- utilities/general.py.
pub mod Outcomes
pub mod Rollout
use opendatahub_tests.Shared.{
  ℕ, String, Bool, true, false, not, ◌&&◌, Option, none, some, List, [], ◌∷◌, ◌++◌, ◌==◌,
  if◌then◌else◌, any, nat_eq, length, join, is_empty,
}
use opendatahub_tests.Serving.Modes.{in_modes, raw_deployment_modes}
use opendatahub_tests.Pods.Waiting.{
  wait_for_replicas_in_deployment, Deployments, found, failed_call, unexpected_count,
  wait_for_deployments,
}

-- A deployment: whether it is still there, the samples of its specification's replicas, and whether the
-- client library's wait for the replicas ends in time.
pub record Deployment : Type 0 where
  pub name : String
  pub exists : Bool
  pub replica_samples : List (Option ℕ)
  pub replicas_ready : Bool

pub data Waited : Type 0 where
  deployed : List Deployment → Waited
  -- the sampler's error, the number that was found, a wait that ran out, a deployment that is gone
  call_error timed_out : Waited
  wrong_count : ℕ → Waited
  not_found : String → Waited

-- `none`: all replicas are there.
wait_replicas : Bool → ℕ → List Deployment → Option Waited
wait_replicas raw min_replicas [] = none
wait_replicas raw min_replicas (d ∷ deployments) =
    let rest = wait_replicas raw min_replicas deployments in
    if not d.exists
    then some (not_found d.name)
    else if raw && not (wait_for_replicas_in_deployment min_replicas d.replica_samples)
    then some timed_out
    else if not d.replicas_ready
    then some timed_out
    else rest

-- `min_replicas` is that of the service's predictor, if it is given.
unfoldable pub wait_for_inference_deployment_replicas :
    Option String → Option ℕ → ℕ → Bool → List (List Deployment) → Waited
unfolding wait_replicas
wait_for_inference_deployment_replicas deployment_mode min_replicas expected_num_deployments
      last_exp samples =
    elim (wait_for_deployments expected_num_deployments last_exp samples) [
      | failed_call ↦ call_error
      | unexpected_count n ↦ wrong_count n
      | found deployments ↦
          elim (wait_replicas (in_modes deployment_mode raw_deployment_modes)
            (elim min_replicas [ none ↦ 1 | some n ↦ n ]) deployments) [
              | none ↦ deployed deployments
              | some ended ↦ ended
            ]
    ]

-- A sample is the list of the pods; none of them, or another number, is retried. `none`: the time is up.
unfoldable pub wait_for_pods_by_labels {ℓ} : {P : Type ℓ} → ℕ → List (List P) → Option (List P)
wait_for_pods_by_labels expected_num_pods [] = none
wait_for_pods_by_labels expected_num_pods (pods ∷ samples) =
    let rest = wait_for_pods_by_labels expected_num_pods samples in
    if is_empty pods
    then rest
    else if not (nat_eq (length pods) expected_num_pods)
    then rest
    else some pods

-- A condition: its type and its reason.
abbrev pub Condition : Type 0
Condition = String × String

-- What is left of the samples behind the first one with the reason; `none`: the time is up.
wait_sampler : String → List (List Condition) → Option (List (List Condition))
wait_sampler reason [] = none
wait_sampler reason (sample ∷ samples) =
    let rest = wait_sampler reason samples in
    if any (λ (c : Condition). c.0 == "Progressing" && c.1 == reason) sample
    then some samples
    else rest

-- The samples are those of both waits, one after the other.
unfoldable pub wait_for_oauth_openshift_deployment : List (List Condition) → Bool
unfolding wait_sampler
wait_for_oauth_openshift_deployment samples = elim (wait_sampler "ReplicaSetUpdated" samples) [
  | none ↦ false
  | some rest ↦ elim (wait_sampler "NewReplicaSetAvailable" rest) [
    | none ↦ false
    | some more ↦ true
  ]
]

pub record Mount : Type 0 where
  pub mount_path : String
  pub name : String
  pub sub_path : Option String

pub record Step : Type 0 where
  pub name : String
  pub image : String
  pub command : List String
  pub args : List String
  pub env : List (String × String)
  pub volume_mounts : List Mount

pub record DownloadPod : Type 0 where
  pub init_containers : List Step
  pub containers : List Step
  -- the name of a volume and the claim that it stands for
  pub volumes : List (String × String)

pub record Download : Type 0 where
  pub aws_access_key_id : String
  pub aws_secret_access_key : String
  pub model_pvc_name : String
  pub bucket_name : String
  pub aws_endpoint_url : String
  pub aws_default_region : String
  pub model_path : String
  pub use_sub_path : Bool

-- The pod, for the image of the storage initializer, and the path that is returned.
unfoldable pub download_model_data : String → Download → DownloadPod × String
download_model_data image d =
    let volume_mount : Mount = record {
      mount_path = "/mnt/models/";
      name = d.model_pvc_name;
      sub_path = if d.use_sub_path then some d.model_path else none;
    } in
    let pvc_model_path = join "/mnt/models/" d.model_path in
    (
      record {
        init_containers =
            record {
              name = "init-container";
              image =
                  "quay.io/quay/busybox@sha256:92f3298bf80a1ba949140d77987f5de081f010337880cd771f7e7fc928f8c74d";
              command = "sh" ∷ [];
              args =
                  "-c"
                  ∷ join "mkdir -p " (join pvc_model_path (join " && chmod -R 777 " pvc_model_path))
                  ∷ [];
              env = [];
              volume_mounts = volume_mount ∷ [];
            }
            ∷ [];
        containers =
            record {
              name = "model-downloader";
              image = image;
              command = [];
              args =
                  join "s3://" (join d.bucket_name (join "/" (join d.model_path "/")))
                  ∷ pvc_model_path
                  ∷ [];
              env =
                  ("AWS_ACCESS_KEY_ID", d.aws_access_key_id)
                  ∷ ("AWS_SECRET_ACCESS_KEY", d.aws_secret_access_key)
                  ∷ ("S3_USE_HTTPS", "1")
                  ∷ ("AWS_ENDPOINT_URL", d.aws_endpoint_url)
                  ∷ ("AWS_DEFAULT_REGION", d.aws_default_region)
                  ∷ ("S3_VERIFY_SSL", "false")
                  ∷ ("awsAnonymousCredential", "false")
                  ∷ [];
              volume_mounts = volume_mount ∷ [];
            }
            ∷ [];
        volumes = (d.model_pvc_name, d.model_pvc_name) ∷ [];
      },
      d.model_path,
    )
