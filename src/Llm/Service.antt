-- ===== src/Llm/Service.antt =====
-- `create_llmisvc` of utilities/llmd_utils.py.
pub mod Specified
use opendatahub_tests.Shared.{
  ℕ, String, Bool, true, false, not, ◌&&◌, ◌||◌, Option, none, some, List, [], ◌∷◌, ◌++◌, ◌==◌,
  if◌then◌else◌, lookup, put, is_empty, given, join, map, Fallible, ok, err, ◌>>=◌,
}
use opendatahub_tests.Llm.Arguments.{
  Error, value_error, key_error, Result, Dict, Resources, Router, given_router, route_only,
  with_scheduler, Arguments, get_llm_config_references, text_of, model_uri,
}

-- `config_refs[key]`
config_ref : String → Dict → Result String
config_ref key config_refs = elim (lookup key config_refs) [
  | none ↦ err key_error
  | some reference ↦ ok reference
]

unfoldable pub router_of : Arguments → Dict → Result Router
unfolding config_ref
router_of a config_refs = elim a.router_config [
  | some router ↦ ok (given_router router)
  | none ↦
      if a.disable_scheduler
      then ok route_only
      else (do scheduler ← config_ref "scheduler_ref" config_refs; ok (with_scheduler scheduler))
]

-- vLLM's image for the CPU.
abbrev pub cpu_image : String
cpu_image =
    "quay.io/pierdipi/vllm-cpu@sha256:ce3a0c057394b2c332498f9742a17fd31b5cc2ef07db882d579fd157fe2c9a98"

unfoldable pub env_of : Arguments → Dict
env_of a = elim a.container_env [
  | some env ↦ env
  | none ↦ ("VLLM_LOGGING_LEVEL", "DEBUG") ∷ (elim a.container_image [
    | none ↦ []
    | some image ↦
        if image == cpu_image
        then ("VLLM_ADDITIONAL_ARGS", "--ssl-ciphers ECDHE+AESGCM:DHE+AESGCM")
          ∷ ("VLLM_CPU_KVCACHE_SPACE", "4")
          ∷ []
        else []
  ])
]

pub record MainContainer : Type 0 where
  pub image : Option String
  pub resources : Resources
  pub env : Dict
  pub liveness_probe : Dict
  pub readiness_probe : Dict
  pub volume_mounts : List Dict

-- What stands beside the reference to the configuration.
pub record Pod : Type 0 where
  pub main : MainContainer
  pub volumes : List Dict
  pub service_account_name : Option String
  pub image_pull_secrets : List String

pub record Template : Type 0 where
  pub config_ref : String
  pub pod : Option Pod

unfoldable pub template_of : String → Arguments → Resources → Dict → Template
template_of config_ref a resources env =
    let asked =
      given a.container_image
      || not (is_empty resources)
      || not (is_empty env)
      || not (is_empty a.liveness_probe)
      || not (is_empty a.readiness_probe)
      || not (is_empty a.volumes)
      || given a.service_account in
    record {
      config_ref = config_ref;
      pod =
          if asked
          then some (record {
            main = record {
              image = if given a.container_image then a.container_image else none;
              resources = resources;
              env = env;
              liveness_probe = a.liveness_probe;
              readiness_probe = a.readiness_probe;
              volume_mounts = a.volume_mounts;
            };
            volumes = a.volumes;
            service_account_name = if given a.service_account then a.service_account else none;
            image_pull_secrets = a.image_pull_secrets;
          })
          else none;
    }

pub record Prefill : Type 0 where
  pub replicas : ℕ
  pub resources : Resources
  pub env : Dict
  pub service_account_name : Option String

unfoldable pub prefill_of : Arguments → Resources → Dict → Option Prefill
prefill_of a resources env = if not a.enable_prefill_decode then none else elim a.prefill_config [
  | none ↦ none
  | some replicas ↦ some (record {
    replicas = elim replicas [ none ↦ 1 | some n ↦ n ];
    resources = resources;
    env = env;
    service_account_name = if given a.service_account then a.service_account else none;
  })
]

abbrev pub auth_annotation : String
auth_annotation = "security.opendatahub.io/enable-auth"

unfoldable pub annotations_of : Arguments → Dict
annotations_of a =
    put auth_annotation (if a.enable_auth then "true" else "false")
      (elim a.annotations [ none ↦ [] | some given_ones ↦ given_ones ])

pub record LlmService : Type 0 where
  pub uri : String
  pub model_name : Option String
  pub replicas : ℕ
  pub router : Router
  pub template : Template
  pub prefill : Option Prefill
  pub annotations : Dict
  pub labels : Dict

-- The service that is created, and whether it is waited for.
unfoldable pub create_llmisvc : Arguments → Result (LlmService × Bool)
unfolding model_uri get_llm_config_references router_of config_ref env_of template_of prefill_of
    annotations_of
create_llmisvc a = do
  uri ← model_uri a
  let config_refs = get_llm_config_references a.enable_prefill_decode a.disable_scheduler
  router ← router_of a config_refs
  resources ← (elim a.container_resources as (λ _. Result Resources) [
    | none ↦ err value_error
    | some given_ones ↦ ok given_ones
  ])
  template_ref ← config_ref "template_ref" config_refs
  let env = env_of a
  ok (
    record {
      uri = uri;
      model_name = if given a.model_name then a.model_name else none;
      replicas = a.replicas;
      router = router;
      template = template_of template_ref a resources env;
      prefill = prefill_of a resources env;
      annotations = annotations_of a;
      labels = elim a.labels [ none ↦ [] | some given_ones ↦ given_ones ];
    },
    a.wait,
  )
