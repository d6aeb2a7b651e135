-- ===== src/Llm/Service/Specified.antt =====
-- What a service is created with, and when it is refused.
use opendatahub_tests.Shared.{
  String, Bool, true, false, ◌&&◌, ◌||◌, Option, none, some, [], ◌==◌, if◌then◌else◌, lookup,
  lookup-put, given, join, ◌≡◌, refl, arith, Option-cases, Bool-cases, inl, inr, ok, err,
}
use opendatahub_tests.Llm.Arguments.{
  value_error, Dict, Resources, Router, given_router, route_only, with_scheduler, Arguments,
  get_llm_config_references, model_uri, text_of,
}
use opendatahub_tests.Llm.Service.{
  config_ref, router_of, env_of, template_of, prefill_of, annotations_of, auth_annotation,
  LlmService, create_llmisvc,
}

-- A model is given by its URI, or by a key and a path.
abbrev pub has_model : Arguments → Bool
has_model a = given a.storage_uri || (given a.storage_key && given a.storage_path)

abbrev pub is_given {ℓ} : {A : Type ℓ} → Option A → Bool
is_given none = false
is_given (some x) = true

abbrev pub expected_router : Option Dict → Bool → Router
expected_router none disable_scheduler =
    if disable_scheduler then route_only else with_scheduler "kserve-config-llm-scheduler"
expected_router (some router) disable_scheduler = given_router router

expected_uri : Arguments → String
expected_uri a =
    if given a.storage_uri
    then text_of a.storage_uri
    else join "s3://ods-ci-wisdom/" (text_of a.storage_path)

model_uri-total :
    (a : Arguments) → model_uri a ≡ (if has_model a then ok (expected_uri a) else err value_error)
unfolding model_uri expected_uri
model_uri-total a = ground arith

router_of-total :
    (a : Arguments)
    → router_of a (get_llm_config_references a.enable_prefill_decode a.disable_scheduler)
      ≡ ok (expected_router a.router_config a.disable_scheduler)
unfolding router_of get_llm_config_references config_ref
router_of-total a = elim (Option-cases a.router_config) [
  | inl e ↦ elim (Bool-cases a.disable_scheduler) [
    | inl d ↦ ground (arith, e, d)
    | inr d ↦ elim (Bool-cases a.enable_prefill_decode) [
      | inl p ↦ ground (arith, e, d, p)
      | inr p ↦ ground (arith, e, d, p)
    ]
  ]
  | inr (r, e) ↦ ground (arith, e)
]

template_ref-config_ref :
    (enable_prefill_decode disable_scheduler : Bool)
    → config_ref "template_ref" (get_llm_config_references enable_prefill_decode disable_scheduler)
      ≡ ok "kserve-config-llm-template"
unfolding config_ref get_llm_config_references
template_ref-config_ref true disable_scheduler = refl
template_ref-config_ref false true = refl
template_ref-config_ref false false = refl

abbrev made : Arguments → Resources → LlmService
made a resources = record {
  uri = expected_uri a;
  model_name = if given a.model_name then a.model_name else none;
  replicas = a.replicas;
  router = expected_router a.router_config a.disable_scheduler;
  template = template_of "kserve-config-llm-template" a resources (env_of a);
  prefill = prefill_of a resources (env_of a);
  annotations = annotations_of a;
  labels = elim a.labels [ none ↦ [] | some given_ones ↦ given_ones ];
}

lookup-annotations_of :
    (a : Arguments) (k : String)
    → lookup k (annotations_of a) ≡ (
        if auth_annotation == k
        then some (if a.enable_auth then "true" else "false")
        else elim a.annotations as (λ _. Option String) [ none ↦ none | some m ↦ lookup k m ])
unfolding annotations_of
lookup-annotations_of a k = elim (Option-cases a.annotations) [
  | inl e ↦ ground (
    arith,
    e,
    lookup-put {V = String} auth_annotation k (if a.enable_auth then "true" else "false") [],
  )
  | inr (m, e) ↦ ground (
    arith,
    e,
    lookup-put {V = String} auth_annotation k (if a.enable_auth then "true" else "false") m,
  )
]

create_llmisvc-made :
    (a : Arguments) (resources : Resources)
    → a.container_resources ≡ some resources
    → has_model a ≡ true
    → create_llmisvc a ≡ ok (made a resources, a.wait)
unfolding create_llmisvc
create_llmisvc-made a resources r m =
    rw
      (
        model_uri-total a,
        m,
        router_of-total a,
        r,
        template_ref-config_ref a.enable_prefill_decode a.disable_scheduler,
      )
      refl

-- A service is created exactly if its model is given by a URI, or by a key with a path, and its
-- resources are given; otherwise a ValueError is raised, and never a KeyError. A created service has
-- the router that was given, or the default one, which names a scheduler exactly if the scheduler is
-- not disabled; its annotation asks for authentication exactly if that was enabled, whatever the given
-- annotations say; and its other annotations are the given ones.
pub create_llmisvc_lem :
    (a : Arguments)
    → ((has_model a && is_given a.container_resources) ≡ false → create_llmisvc a ≡ err value_error)
      × ((has_model a && is_given a.container_resources) ≡ true
          → (s : LlmService) × (create_llmisvc a ≡ ok (s, a.wait))
            × (s.router ≡ expected_router a.router_config a.disable_scheduler)
            × ((k : String)
                → lookup k s.annotations ≡ (
                    if auth_annotation == k
                    then some (if a.enable_auth then "true" else "false")
                    else elim a.annotations as (λ _. Option String) [
                      | none ↦ none
                      | some m ↦ lookup k m
                    ])))
unfolding create_llmisvc
create_llmisvc_lem a = (
  (λ refused. elim (Bool-cases (has_model a)) [
    | inr m ↦ ground (arith, model_uri-total a, m)
    | inl m ↦ elim (Option-cases a.container_resources) [
      | inl r ↦ ground (arith, model_uri-total a, m, r, router_of-total a)
      | inr (res, r) ↦ ground (arith, m, r, refused)
    ]
  ]),
  (λ accepted. elim (Option-cases a.container_resources) [
    | inl r ↦ ground (arith, r, accepted)
    | inr (res, r) ↦ (
      made a res,
      create_llmisvc-made a res r (ground (arith, r, accepted)),
      refl,
      lookup-annotations_of a,
    )
  ]),
)
