-- ===== src/Serving/Spec.antt =====
-- The first part of `create_isvc` of utilities/inference_utils.py: the predictor, the annotations
-- and the labels that the service is created with. `A` stands for the entries of the lists and
-- dictionaries that are passed on unread.
pub mod Predictor
use opendatahub_tests.Shared.{
  ℕ, String, Bool, true, false, ◌&&◌, ◌||◌, not, Option, none, some, List, [], ◌∷◌, ◌==◌, nat_eq,
  if◌then◌else◌, given, put,
}
use opendatahub_tests.Serving.Modes.{
  serverless, raw_deployment_modes, deployment_mode_annotation, force_stop_annotation,
  security_annotation, networking_kserve_io, exposed, Result, ok, err, ◌>>=◌, is_mode, in_modes,
  is_kserve,
}
use opendatahub_tests.Serving.Storage.{check_storage_arguments}

-- The arguments of `create_isvc` that its dictionaries are made from.
pub record Arguments (A : Type 0) : Type 0 where
  pub model_format : String
  pub runtime : String
  pub storage_uri : Option String
  pub storage_key : Option String
  pub storage_path : Option String
  pub enable_auth : Bool
  pub deployment_mode : Option String
  pub external_route : Option Bool
  pub model_service_account : Option String
  pub min_replicas : Option ℕ
  pub max_replicas : Option ℕ
  pub argument : Option (List A)
  pub resources : Option (List A)
  pub volumes : Option (List A)
  pub volumes_mounts : Option (List A)
  pub image_pull_secrets : Option (List String)
  pub model_version : Option String
  pub autoscaler_mode : Option String
  pub stop_resume : Bool
  pub multi_node_worker_spec : Option (List A)
  pub scale_metric : Option String
  pub scale_target : Option ℕ
  pub model_env_variables : Option (List A)
  pub protocol_version : Option String
  pub labels : Option (List (String × String))
  pub auto_scaling : Option (List A)
  pub scheduler_name : Option String

-- The keys of the predictor's dictionary; `none` is a key that is not there. Of a storage that is
-- given by a key, the key and the path.
pub record Model (A : Type 0) : Type 0 where
  pub format_name : String
  pub format_version : Option String
  pub version : Option String
  pub runtime : String
  pub storage_uri : Option String
  pub storage : Option (String × Option String)
  pub args : Option (List A)
  pub resources : Option (List A)
  pub volume_mounts : Option (List A)
  pub env : Option (List A)
  pub protocol_version : Option String

pub record PredictorDict (A : Type 0) : Type 0 where
  pub model : Model A
  pub min_replicas : Option ℕ
  pub max_replicas : Option ℕ
  pub service_account_name : Option String
  pub image_pull_secrets : Option (List String)
  pub volumes : Option (List A)
  pub auto_scaling : Option (List A)
  pub worker_spec : Option (List A)
  pub scale_metric : Option String
  pub scale_target : Option ℕ
  pub scheduler_name : Option String

pub record Manifest (A : Type 0) : Type 0 where
  pub predictor : PredictorDict A
  pub annotations : List (String × String)
  pub labels : List (String × String)

-- `if value: d[key] = value` for a text and for a list, where the key is not there yet.
abbrev pub text_if : Option String → Option String
text_if v = if given v then v else none

abbrev pub list_if {ℓ} : {B : Type ℓ} → Option (List B) → Option (List B)
list_if none = none
list_if (some []) = none
list_if (some (x ∷ xs)) = some (x ∷ xs)

-- `if value: d[key] = value` for a number, over what the key holds.
abbrev replicas_if : Option ℕ → Option ℕ → Option ℕ
replicas_if none old = old
replicas_if (some n) old = if nat_eq n 0 then old else some n

abbrev pub is_true : Option Bool → Bool
is_true none = false
is_true (some b) = b

abbrev pub is_false : Option Bool → Bool
is_false none = false
is_false (some b) = not b

module _ {A : Type 0} where
  storage_of : Arguments A → Option (String × Option String)
  storage_of a = elim a.storage_key [
    | none ↦ none
    | some key ↦ if given a.storage_uri || key == "" then none else some (key, a.storage_path)
  ]

  unfoldable pub create_model : Arguments A → Model A
  unfolding storage_of
  create_model a = record {
    format_name = a.model_format;
    format_version = text_if a.model_version;
    version = a.model_version;
    runtime = a.runtime;
    storage_uri = text_if a.storage_uri;
    storage = storage_of a;
    args = list_if a.argument;
    resources = list_if a.resources;
    volume_mounts = list_if a.volumes_mounts;
    env = list_if a.model_env_variables;
    protocol_version = a.protocol_version;
  }

  -- Replicas are written twice: first if they are given at all, then if they are not 0.
  unfoldable pub create_predictor : Arguments A → PredictorDict A
  create_predictor a = record {
    model = create_model a;
    min_replicas = replicas_if a.min_replicas a.min_replicas;
    max_replicas = replicas_if a.max_replicas a.max_replicas;
    service_account_name = text_if a.model_service_account;
    image_pull_secrets = list_if a.image_pull_secrets;
    volumes = list_if a.volumes;
    auto_scaling = list_if a.auto_scaling;
    worker_spec = a.multi_node_worker_spec;
    scale_metric = a.scale_metric;
    scale_target = a.scale_target;
    scheduler_name = a.scheduler_name;
  }

  -- The storage arguments are checked if one of them is given.
  unfoldable pub check_given_storage : Arguments A → Result (Unit {0})
  check_given_storage a =
      if given a.storage_uri || given a.storage_path || given a.storage_key
      then check_storage_arguments a.storage_uri a.storage_key a.storage_path
      else ok tt

  mode_annotations : Arguments A → List (String × String)
  mode_annotations a = elim a.deployment_mode [
    | none ↦ []
    | some mode ↦ if mode == "" then [] else (deployment_mode_annotation, mode) ∷ []
  ]

  auth_annotations : Arguments A → List (String × String) → List (String × String)
  auth_annotations a annotations =
      if a.enable_auth && is_kserve a.deployment_mode
      then put security_annotation "true" annotations
      else annotations

  scaler_annotations : Arguments A → List (String × String) → List (String × String)
  scaler_annotations a annotations = elim a.autoscaler_mode [
    | none ↦ annotations
    | some mode ↦
        if mode == "" then annotations else put "serving.kserve.io/autoscalerClass" mode annotations
  ]

  unfoldable pub create_annotations : Arguments A → List (String × String)
  unfolding mode_annotations auth_annotations scaler_annotations
  create_annotations a =
      let annotations = scaler_annotations a (auth_annotations a (mode_annotations a)) in
      if a.stop_resume then put force_stop_annotation "True" annotations else annotations

  -- A serverless service has an external route unless it is refused.
  unfoldable pub effective_route : Arguments A → Option Bool
  effective_route a = elim a.external_route [
    | none ↦ if is_mode a.deployment_mode serverless then some true else none
    | some route ↦ some route
  ]

  -- The caller's labels, which the source changes in place, or none.
  unfoldable pub given_labels : Arguments A → List (String × String)
  given_labels a = elim a.labels [ none ↦ [] | some labels ↦ labels ]

  unfoldable pub create_labels : Arguments A → List (String × String)
  unfolding given_labels effective_route
  create_labels a =
      let shown =
        if is_true (effective_route a) && in_modes a.deployment_mode raw_deployment_modes
        then put networking_kserve_io exposed (given_labels a)
        else given_labels a in
      if is_mode a.deployment_mode serverless && is_false (effective_route a)
      then put "networking.knative.dev/visibility" "cluster-local" shown
      else shown

  unfoldable pub create_manifest : Arguments A → Result (Manifest A)
  create_manifest a = do
    accepted ← check_given_storage a
    ok (record {
      predictor = create_predictor a;
      annotations = create_annotations a;
      labels = create_labels a;
    })
