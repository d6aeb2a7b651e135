-- ===== src/Serving/Exposure.antt =====
-- `get_deployment_type` and `is_service_exposed` of utilities/inference_utils.py.
pub mod Created
use opendatahub_tests.Shared.{
  ℕ, String, Bool, true, false, ◌&&◌, ◌||◌, not, Option, none, some, List, [], ◌∷◌, ◌==◌,
  if◌then◌else◌, given, lookup,
}
use opendatahub_tests.Serving.Modes.{
  serverless, model_mesh, raw_deployment_modes, deployment_mode_annotation, networking_kserve_io,
  networking_knative_io, exposed, Result, ok, err, attribute_error, is_mode, in_modes,
}

-- An inference service, with its status and the annotations of its runtime, or a graph.
pub data Kind : Type 0 where
  service : Option String → List (String × String) → Kind
  graph : Kind

pub record Deployed : Type 0 where
  pub kind : Kind
  pub annotations : List (String × String)
  pub labels : List (String × String)

fallback_type : Kind → Option String
fallback_type (service status_mode runtime) = status_mode
fallback_type graph = some serverless

unfoldable pub get_deployment_type : Deployed → Option String
unfolding fallback_type
get_deployment_type d = elim (lookup deployment_mode_annotation d.annotations) [
  | none ↦ fallback_type d.kind
  | some mode ↦ if mode == "" then fallback_type d.kind else some mode
]

-- `labels.get(key) == value`; missing or empty labels have no value.
abbrev pub label_is : List (String × String) → String → String → Bool
label_is labels key value = is_mode (lookup key labels) value

raw_exposed : Kind → List (String × String) → Bool
raw_exposed (service status_mode runtime) labels = label_is labels networking_kserve_io exposed
raw_exposed graph labels = not (label_is labels networking_kserve_io "cluster-local")

-- A graph has no runtime: the attribute is never set.
mesh_exposed : Kind → Result Bool
mesh_exposed (service status_mode runtime) = ok (label_is runtime "enable-route" "true")
mesh_exposed graph = err attribute_error

unfoldable pub is_service_exposed : Deployed → Result Bool
unfolding raw_exposed mesh_exposed
is_service_exposed d =
    let mode = get_deployment_type d in
    if in_modes mode raw_deployment_modes
    then ok (raw_exposed d.kind d.labels)
    else if is_mode mode serverless
    then ok (not (label_is d.labels networking_knative_io "cluster-local"))
    else if is_mode mode model_mesh
    then mesh_exposed d.kind
    else ok false
