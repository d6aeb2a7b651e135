-- ===== src/Serving/Tests.antt =====
-- Services that are created from concrete arguments, and instances of the theorems on them.
use opendatahub_tests.Shared.{
  map, ℕ, String, ◌≡◌, ◌≢◌, ◌↔◌, ◌⊎◌, refl, true, false, none, some, [], ◌∷◌, lookup, lower, List,
  leading_spaces, drop_chars,
}
use opendatahub_tests.Serving.Modes.{
  ok, err, value_error, invalid_storage_argument, networking_kserve_io, deployment_mode_annotation,
  security_annotation, force_stop_annotation,
}
use opendatahub_tests.Serving.Storage.{check_storage_arguments, check_storage_arguments-ok_iff}
use opendatahub_tests.Serving.Spec.{
  Arguments, Manifest, create_manifest, create_predictor, create_annotations, create_labels,
  given_labels, check_given_storage,
}
use opendatahub_tests.Serving.Spec.Predictor.{
  StorageOf, create_manifest-StorageOf, create_manifest-replicas, create_manifest-annotations,
}
use opendatahub_tests.Serving.Exposure.{is_service_exposed}
use opendatahub_tests.Serving.Exposure.Created.{deploy, is_service_exposed-deploy}
use opendatahub_tests.Serving.Ports.{
  Target, ServicePort, port_fits, svc_port, get_target_port, find_port, svc_protocol,
}
use opendatahub_tests.Serving.Ports.Fits.{get_target_port-fits, get_target_port-multi_node}
use opendatahub_tests.Serving.Readiness.{
  ModelStatus, Request, Seen, yielded, clean_up, deploy as deploy_again, is_model_loaded,
  after_creation,
}
use opendatahub_tests.Serving.Readiness.Yielded.{after_creation-yielded}
use opendatahub_tests.Serving.Output.{Field, fields, strip, add_headers}
use opendatahub_tests.Serving.Output.Headers.{rendered, last_value, add_headers-rendered}
use opendatahub_tests.Serving.Body.{InferenceConfig, inference_input}
use opendatahub_tests.Serving.Body.Choice.{inference_input-ok}

abbrev raw_service : Arguments ℕ
raw_service = record {
  model_format = "onnx";
  runtime = "ovms";
  storage_uri = none;
  storage_key = some "models";
  storage_path = some "mnist";
  enable_auth = true;
  deployment_mode = some "RawDeployment";
  external_route = some true;
  model_service_account = none;
  min_replicas = some 0;
  max_replicas = some 3;
  argument = none;
  resources = none;
  volumes = none;
  volumes_mounts = none;
  image_pull_secrets = none;
  model_version = none;
  autoscaler_mode = none;
  stop_resume = false;
  multi_node_worker_spec = none;
  scale_metric = none;
  scale_target = none;
  model_env_variables = none;
  protocol_version = none;
  labels = none;
  auto_scaling = none;
  scheduler_name = none;
}

abbrev raw_manifest : Manifest ℕ
raw_manifest = record {
  predictor = create_predictor raw_service;
  annotations = create_annotations raw_service;
  labels = create_labels raw_service;
}

raw_created : create_manifest raw_service ≡ ok raw_manifest
unfolding create_manifest check_given_storage check_storage_arguments
raw_created = refl

raw_labels : create_labels raw_service ≡ (networking_kserve_io, "exposed") ∷ []
unfolding create_labels
raw_labels = refl

uri_and_key :
    check_storage_arguments (some "s3://models") (some "models") (some "mnist")
    ≡ err invalid_storage_argument
unfolding check_storage_arguments
uri_and_key = refl

check_storage_arguments-ok_iff_example :
    (check_storage_arguments none (some "models") (some "mnist") ≡ ok tt) ↔ (
      ((false ≡ true) × (true ≡ false) × (true ≡ false))
      ⊎ ((false ≡ false) × (true ≡ true) × (true ≡ true)))
check_storage_arguments-ok_iff_example =
    check_storage_arguments-ok_iff none (some "models") (some "mnist")

create_manifest-StorageOf_example : StorageOf raw_service raw_manifest.predictor.model
create_manifest-StorageOf_example =
    create_manifest-StorageOf raw_service {m = raw_manifest} raw_created

create_manifest-replicas_example :
    (raw_manifest.predictor.min_replicas ≡ some 0) × (raw_manifest.predictor.max_replicas ≡ some 3)
create_manifest-replicas_example =
    create_manifest-replicas raw_service {m = raw_manifest} raw_created

create_manifest-annotations_example :
    (lookup deployment_mode_annotation raw_manifest.annotations ≡ some "RawDeployment")
    × (lookup security_annotation raw_manifest.annotations ≡ some "true")
    × (lookup force_stop_annotation raw_manifest.annotations ≡ none)
create_manifest-annotations_example =
    create_manifest-annotations raw_service {m = raw_manifest} raw_created

is_service_exposed-deploy_example :
    is_service_exposed (deploy raw_manifest (some "Serverless") []) ≡ ok true
unfolding given_labels
is_service_exposed-deploy_example =
    is_service_exposed-deploy raw_service {m = raw_manifest} (some "Serverless") [] raw_created refl
      refl refl

abbrev rest_port : ServicePort
rest_port = record { port = 80; target_port = some 8080; protocol = "TCP"; name = some "http" }

abbrev raw_target : Target
raw_target = record {
  protocol = "https";
  deployment_mode = some "RawDeployment";
  visibility_exposed = false;
  multi_node = false;
  pod_ports = [];
  ports = rest_port ∷ [];
}

abbrev spread_target : Target
spread_target = record raw_target { multi_node = true }

rest_port_found : get_target_port raw_target ≡ ok 8080
unfolding get_target_port find_port port_fits svc_protocol svc_port lower
rest_port_found = refl

spread_port_missed : get_target_port spread_target ≡ err value_error
unfolding get_target_port
spread_port_missed = refl

get_target_port-fits_example : get_target_port raw_target ≡ ok 8080
unfolding lower
get_target_port-fits_example = get_target_port-fits raw_target refl

get_target_port-multi_node_example :
    (get_target_port spread_target ≡ get_target_port (record spread_target { ports = [] }))
    × ((get_target_port spread_target ≡ err value_error) ↔ (spread_target.pod_ports ≡ []))
get_target_port-multi_node_example = get_target_port-multi_node spread_target [] refl

abbrev caikit : InferenceConfig
caikit = record {
  types = ("all-tokens", ("http", ("endpoint", "v1/models/$model:predict") ∷ []) ∷ []) ∷ [];
  default_query_model = some (record { query_input = some "At what temperature"; by_type = [] });
  support_multi_default_queries = false;
}

default_sent : inference_input caikit "all-tokens" none true ≡ ok "At what temperature"
unfolding inference_input
default_sent = refl

inference_input-ok_example :
    let sent : String = "At what temperature" in
    ((true ≡ false) → none ≡ some sent) × ((true ≡ true) → sent ≢ "")
inference_input-ok_example =
    inference_input-ok caikit "all-tokens" none true "At what temperature" default_sent

abbrev loaded : ModelStatus
loaded = record {
  active_model_state = "Loaded";
  target_model_state = "Loaded";
  transition_status = some "UpToDate";
}

abbrev loading : ModelStatus
loading = record loaded { transition_status = some "InProgress" }

abbrev waiting : Request
waiting = record {
  runtime = "ovms";
  deployment_mode = some "ModelMesh";
  wait = true;
  wait_for_predictor_pods = true;
  stop_resume = false;
}

abbrev seen_loading : Seen
seen_loading = record {
  pods_good = true;
  replicas_there = true;
  neighbours =
      record { runtime_name = "ovms"; runtime_exists = true; deployment_mode = some "ModelMesh" }
      ∷ record {
        runtime_name = "triton";
        runtime_exists = true;
        deployment_mode = some "ModelMesh";
      }
      ∷ record { runtime_name = "gone"; runtime_exists = false; deployment_mode = none }
      ∷ [];
  ready = true;
  initial_status = some loading;
  samples = none ∷ some loading ∷ some loaded ∷ [];
  model_status = some loaded;
}

-- Its own runtime comes first, and that of another service of Model Mesh second.
after_creation-yielded_example :
    (((after_creation waiting seen_loading).1 ≡ yielded) ↔ (true ≡ true))
    × ((after_creation waiting seen_loading).0 ≡ clean_up ∷ deploy_again ∷ [])
unfolding is_model_loaded
after_creation-yielded_example = after_creation-yielded waiting seen_loading

abbrev answer_headers : List (String × String)
answer_headers = ("server", "istio") ∷ ("set-cookie", "a=1") ∷ ("set-cookie", "b=2") ∷ []

abbrev no_fields : List (String × Field String)
no_fields = []

add_headers-rendered_example :
    (response : List (String × Field String)) × (add_headers (map rendered answer_headers) no_fields
      ≡ fields response)
    × ((k : String) → lookup k response ≡ last_value k answer_headers (lookup k no_fields))
unfolding strip leading_spaces drop_chars
add_headers-rendered_example =
    add_headers-rendered answer_headers no_fields
      (refl, refl, refl, (refl, refl, refl, (refl, refl, refl, tt)))
