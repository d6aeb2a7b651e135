-- ===== src/Runtime/Tests.antt =====
-- A concrete template, and instances of the theorems on it.
use opendatahub_tests.Shared.{true, false, none, some, List, [], ◌∷◌, ◌++◌, lookup, map, ◌≡◌, refl}
use opendatahub_tests.Runtime.Values.{text, envs, Container, name_of}
use opendatahub_tests.Runtime.Containers.{
  Options, Configs, override, all_containers, update_containers, update_container, update_envs,
  support_endpoints, new_containers, config_of, pop_config,
}
use opendatahub_tests.Runtime.Containers.Names.{untaken, names, names-all_containers}
use opendatahub_tests.Runtime.Containers.Overrides.{lookup-override}

abbrev options : Options
options = record {
  template_name = "vllm-runtime-template";
  enable_http = some true;
  enable_grpc = some false;
  resources = none;
  deployment_type = some "RawDeployment";
  runtime_image = some "quay.io/vllm";
  support_tgis_open_ai_endpoints = false;
}

abbrev template : List Container
template =
    (("name", text "kserve-container")
      ∷ ("env", envs (record { name = some "RUNTIME_HTTP_ENABLED"; value = some "false" } ∷ []))
      ∷ [])
    ∷ []

abbrev configs : Configs
configs =
    ("kserve-container", ("image", text "quay.io/other") ∷ [])
    ∷ ("sidecar", ("image", text "quay.io/proxy") ∷ [])
    ∷ []

abbrev containers : List Container
containers =
    (("name", text "kserve-container")
      ∷ ("env", envs (record { name = some "RUNTIME_HTTP_ENABLED"; value = some "true" } ∷ []))
      ∷ ("image", text "quay.io/other")
      ∷ [])
    ∷ (("name", text "sidecar") ∷ ("image", text "quay.io/proxy") ∷ [])
    ∷ []

names-all_containers_example :
    map name_of containers ≡ map name_of template ++ names (untaken template configs)
unfolding all_containers update_containers update_container update_envs support_endpoints
    new_containers config_of pop_config override
names-all_containers_example = names-all_containers options configs template containers refl refl

lookup-override_example :
    lookup "image"
      (override (("image", text "quay.io/other") ∷ []) (("image", text "quay.io/vllm") ∷ []))
    ≡ some (text "quay.io/other")
lookup-override_example =
    lookup-override (("image", text "quay.io/other") ∷ []) (("image", text "quay.io/vllm") ∷ [])
      "image" refl
