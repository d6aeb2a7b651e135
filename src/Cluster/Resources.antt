-- ===== src/Cluster/Resources.antt =====
-- The secrets, roles and config maps that utilities/infra.py creates, with `get_s3_secret_dict` and
-- `b64_encoded_string` of utilities/general.py.
pub mod Base64
use Prim.Native.String
use Prim.Native.String.{count}
use opendatahub_tests.Shared.{
  ℕ, zero, suc, ◌-◌, String, Bool, true, false, not, ◌&&◌, ◌||◌, Option, none, some, List, [], ◌∷◌,
  ◌==◌, if◌then◌else◌, join, given, starts_with, get_or, is_empty,
}
use opendatahub_tests.Cluster.Components.{ResourceEditor, States}
use opendatahub_tests.Cluster.Resources.Base64.{b64_encoded_string}

abbrev pub Dict : Type 0
Dict = List (String × String)

-- `first or second or default`
first_given : Option String → Option String → String → String
first_given a b default_ =
    if given a then get a default_ else if given b then get b default_ else default_
  where
    get : Option String → String → String
    get none d = d
    get (some s) d = s

unfoldable pub get_s3_secret_dict :
    String → String → String → String → Option String → Option String → Dict
unfolding first_given
get_s3_secret_dict aws_access_key aws_secret_access_key aws_s3_bucket aws_s3_endpoint aws_s3_region
      aws_default_region =
    ("AWS_ACCESS_KEY_ID", b64_encoded_string aws_access_key)
    ∷ ("AWS_SECRET_ACCESS_KEY", b64_encoded_string aws_secret_access_key)
    ∷ ("AWS_S3_BUCKET", b64_encoded_string aws_s3_bucket)
    ∷ ("AWS_S3_ENDPOINT", b64_encoded_string aws_s3_endpoint)
    ∷ (
      "AWS_DEFAULT_REGION",
      b64_encoded_string (first_given aws_default_region aws_s3_region "us-east-1"),
    )
    ∷ []

-- `text.replace(needle, "")`, with the number of characters that are still to be passed over.
without_text : String → ℕ → String → String
without_text needle skip String.[] = String.[]
without_text needle (suc skip) (String.◌∷◌ c s) = without_text needle skip s
without_text needle zero (String.◌∷◌ c s) =
    let cut = without_text needle (count needle - 1) s in
    let more = without_text needle zero s in
    if starts_with (String.◌∷◌ c s) needle then cut else String.◌∷◌ c more

pub record Secret : Type 0 where
  pub name : String
  pub namespace : String
  pub annotations : Dict
  pub label : Dict
  pub data_dict : Dict
  pub teardown : Bool

-- The secret that is there, or the one that is created and, if asked for, deleted again.
pub data SecretUse : Type 0 where
  existing : SecretUse
  created : Secret → SecretUse

unfoldable pub s3_endpoint_secret :
    Bool → String → String → String → String → String → String → String → Bool → SecretUse
unfolding without_text get_s3_secret_dict first_given
s3_endpoint_secret exists name namespace aws_access_key aws_secret_access_key aws_s3_bucket
      aws_s3_endpoint aws_s3_region teardown =
    if exists
    then existing
    else created (record {
      name = name;
      namespace = namespace;
      annotations =
          ("opendatahub.io/connection-type", "s3")
          ∷ (
            "serving.kserve.io/s3-endpoint",
            without_text "http://" 0 (without_text "https://" 0 aws_s3_endpoint),
          )
          ∷ ("serving.kserve.io/s3-region", aws_s3_region)
          ∷ ("serving.kserve.io/s3-useanoncredential", "false")
          ∷ ("serving.kserve.io/s3-verifyssl", "0")
          ∷ (
            "serving.kserve.io/s3-usehttps",
            (if starts_with aws_s3_endpoint "https://" then "1" else "0"),
          )
          ∷ [];
      label = ("opendatahub.io/managed", "true") ∷ ("opendatahub.io/dashboard", "true") ∷ [];
      data_dict =
          get_s3_secret_dict aws_access_key aws_secret_access_key aws_s3_bucket aws_s3_endpoint
            (some aws_s3_region) none;
      teardown = teardown;
    })

pub record Rule : Type 0 where
  pub api_groups : List String
  pub resources : List String
  pub verbs : List String
  pub resource_names : Option (List String)

-- The API group is the client library's.
unfoldable pub create_isvc_view_role : String → Option (List String) → List Rule
create_isvc_view_role api_group resource_names =
    record {
      api_groups = api_group ∷ [];
      resources = "inferenceservices" ∷ [];
      verbs = "get" ∷ [];
      resource_names = elim resource_names [
        | none ↦ none
        | some names ↦ if is_empty names then none else some names
      ];
    }
    ∷ []

unfoldable pub create_inference_graph_view_role : String → Option (List String) → List Rule
create_inference_graph_view_role api_group resource_names =
    record {
      api_groups = api_group ∷ [];
      resources = "inferencegraphs" ∷ [];
      verbs = "get" ∷ [];
      resource_names = elim resource_names [
        | none ↦ none
        | some names ↦ if is_empty names then none else some names
      ];
    }
    ∷ []

-- The data of the config map, if it exists: while the body runs, and in the end. The body changes
-- them.
unfoldable pub update_configmap_data :
    ResourceEditor → Dict → (Dict → Dict) → Option Dict → Dict × Option Dict
update_configmap_data editor values body none = (values, none)
update_configmap_data editor values body (some present) =
    let patched = editor.enter values present in
    (patched, some (editor.leave values present (body patched)))
