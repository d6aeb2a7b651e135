-- ===== src/Llm/Arguments.antt =====
-- The arguments of `create_llmisvc` of utilities/llmd_utils.py, its model's URI and
-- `_get_llm_config_references`.
use opendatahub_tests.Shared.{
  ℕ, String, Bool, not, ◌&&◌, Option, none, some, List, [], ◌∷◌, if◌then◌else◌, put, given, join,
  Fallible, ok, err,
}

pub data Error : Type 0 where
  value_error key_error : Error

abbrev pub Result {ℓ} : Type ℓ → Type ℓ
Result A = Fallible Error A

abbrev pub Dict : Type 0
Dict = List (String × String)

-- Resources: requests and limits, each a dictionary.
abbrev pub Resources : Type 0
Resources = List (String × Dict)

-- A router: one that is given, or the default with its parts.
pub data Router : Type 0 where
  given_router : Dict → Router
  route_only : Router
  with_scheduler : String → Router

-- An empty dictionary, list or text stands for `None` where the code tests the value's truth alone.
pub record Arguments : Type 0 where
  pub storage_uri : Option String
  pub storage_key : Option String
  pub storage_path : Option String
  pub replicas : ℕ
  pub wait : Bool
  pub enable_auth : Bool
  pub router_config : Option Dict
  pub container_image : Option String
  pub container_resources : Option Resources
  pub container_env : Option Dict
  pub liveness_probe : Dict
  pub readiness_probe : Dict
  pub image_pull_secrets : List String
  pub service_account : Option String
  pub volumes : List Dict
  pub volume_mounts : List Dict
  pub annotations : Option Dict
  pub labels : Option Dict
  pub model_name : Option String
  -- the replicas of the prefill configuration, where it is not empty, and where they are given
  pub prefill_config : Option (Option ℕ)
  pub disable_scheduler : Bool
  pub enable_prefill_decode : Bool

unfoldable pub get_llm_config_references : Bool → Bool → Dict
get_llm_config_references enable_prefill_decode disable_scheduler =
    let base_configs = ("template_ref", "kserve-config-llm-template") ∷ [] in
    if enable_prefill_decode
    then put "scheduler_ref" "kserve-config-llm-scheduler" (
        put "decode_template_ref" "kserve-config-llm-decode-template"
          (put "prefill_template_ref" "kserve-config-llm-prefill-template" base_configs))
    else if not disable_scheduler
    then put "scheduler_ref" "kserve-config-llm-scheduler" base_configs
    else base_configs

-- The text that is given.
abbrev pub text_of : Option String → String
text_of none = ""
text_of (some text) = text

unfoldable pub model_uri : Arguments → Result String
model_uri a =
    if given a.storage_uri
    then ok (text_of a.storage_uri)
    else if given a.storage_key && given a.storage_path
    then ok (join "s3://ods-ci-wisdom/" (text_of a.storage_path))
    else err value_error
