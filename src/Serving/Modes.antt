-- ===== src/Serving/Modes.antt =====
-- Deployment modes, labels and annotations of utilities/constants.py, the label selectors of
-- utilities/general.py, and the errors that the serving functions raise.
pub use opendatahub_tests.Shared.{ok, err, ◌>>=◌}
use opendatahub_tests.Shared.{
  Fallible, String, Bool, false, ◌||◌, Option, none, some, List, ◌∷◌, [], ◌==◌, if◌then◌else◌, has,
  join,
}

abbrev pub serverless : String
serverless = "Serverless"

abbrev pub raw_deployment : String
raw_deployment = "RawDeployment"

abbrev pub standard : String
standard = "Standard"

abbrev pub model_mesh : String
model_mesh = "ModelMesh"

abbrev pub raw_deployment_modes : List String
raw_deployment_modes = raw_deployment ∷ standard ∷ []

abbrev pub deployment_mode_annotation : String
deployment_mode_annotation = "serving.kserve.io/deploymentMode"

abbrev pub force_stop_annotation : String
force_stop_annotation = "serving.kserve.io/stop"

abbrev pub security_annotation : String
security_annotation = "security.opendatahub.io/enable-auth"

abbrev pub networking_kserve_io : String
networking_kserve_io = "networking.kserve.io/visibility"

abbrev pub networking_knative_io : String
networking_knative_io = "networking.knative.dev/visibility"

abbrev pub exposed : String
exposed = "exposed"

pub data Error : Type 0 where
  invalid_storage_argument value_error type_error attribute_error : Error

abbrev pub Result {ℓ} : Type ℓ → Type ℓ
Result A = Fallible Error A

-- `value == text` and `value in texts` where the value may be `None`.
abbrev pub is_mode : Option String → String → Bool
is_mode none t = false
is_mode (some s) t = s == t

abbrev pub in_modes : Option String → List String → Bool
in_modes none ts = false
in_modes (some s) ts = has ts s

-- Serverless or one of the raw modes.
abbrev pub is_kserve : Option String → Bool
is_kserve mode = is_mode mode serverless || in_modes mode raw_deployment_modes

-- `create_isvc_label_selector_str`, from the mode in the service's annotations.
unfoldable pub create_isvc_label_selector_str :
    Option String → String → String → Option String → Result String
create_isvc_label_selector_str deployment_mode name resource_type runtime_name =
    if is_kserve deployment_mode
    then ok (join "serving.kserve.io/inferenceservice=" name)
    else if is_mode deployment_mode model_mesh
    then (if resource_type == "service"
        then ok "modelmesh-service=modelmesh-serving"
        else ok (join "name=modelmesh-serving-" (elim runtime_name [ none ↦ "None" | some r ↦ r ])))
    else err value_error

-- `create_ig_pod_label_selector_str`
unfoldable pub create_ig_pod_label_selector_str : String → String
create_ig_pod_label_selector_str name = join "serving.kserve.io/inferencegraph=" name
