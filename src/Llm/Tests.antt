-- ===== src/Llm/Tests.antt =====
-- Concrete services, and instances of the theorems on them.
use opendatahub_tests.Shared.{
  String, true, false, Option, none, some, [], ◌∷◌, ◌==◌, if◌then◌else◌, lookup, ◌≡◌, refl, ok,
}
use opendatahub_tests.Llm.Arguments.{Arguments}
use opendatahub_tests.Llm.Service.{LlmService, create_llmisvc, auth_annotation}
use opendatahub_tests.Llm.Service.Specified.{expected_router, create_llmisvc_lem}
use opendatahub_tests.Llm.Access.{get_llm_inference_url}
use opendatahub_tests.Llm.Access.Urls.{get_llm_inference_url_lem}

abbrev arguments : Arguments
arguments = record {
  storage_uri = some "oci://quay.io/model";
  storage_key = none;
  storage_path = none;
  replicas = 1;
  wait = true;
  enable_auth = true;
  router_config = none;
  container_image = none;
  container_resources = some (("limits", ("cpu", "2") ∷ []) ∷ []);
  container_env = none;
  liveness_probe = [];
  readiness_probe = [];
  image_pull_secrets = [];
  service_account = none;
  volumes = [];
  volume_mounts = [];
  annotations = some ((auth_annotation, "false") ∷ []);
  labels = none;
  model_name = none;
  prefill_config = none;
  disable_scheduler = false;
  enable_prefill_decode = true;
}

create_llmisvc_lem_example :
    (s : LlmService) × (create_llmisvc arguments ≡ ok (s, true))
    × (s.router ≡ expected_router none false)
    × ((k : String)
        → lookup k s.annotations ≡ (
            if auth_annotation == k
            then some "true"
            else elim arguments.annotations as (λ _. Option String) [
              | none ↦ none
              | some m ↦ lookup k m
            ]))
create_llmisvc_lem_example = (create_llmisvc_lem arguments).1 refl

get_llm_inference_url_lem_example :
    (get_llm_inference_url
        (some (record { addresses = none ∷ []; url = some "https://m" }))
        (ok [])
        "m"
        "ns"
      ≡ "https://m")
    × (("https://m" == "") ≡ false)
unfolding get_llm_inference_url
get_llm_inference_url_lem_example =
    get_llm_inference_url_lem (some (record { addresses = none ∷ []; url = some "https://m" }))
      (ok []) "m" "ns"
