-- ===== src/Runtime/Containers.antt =====
-- The containers of a runtime, in `ServingRuntimeFromTemplate.update_model_dict` of
-- utilities/serving_runtime.py.
pub mod Untouched
pub mod Names
pub mod Overrides
use opendatahub_tests.Shared.{
  ℕ, String, Bool, true, false, not, ◌&&◌, ◌||◌, Option, none, some, List, [], ◌∷◌, ◌++◌, ◌==◌,
  if◌then◌else◌, lookup, put, keep, map, any, is_empty, in_text, lower,
}
use opendatahub_tests.Runtime.Values.{
  Error, Result, ok, err, ◌>>=◌, key_error, index_error, type_error, Env, Port, Value, text, texts,
  envs, ports, nested, Container, name_of, grpc_ports, raw_ports, grpc_command,
}

-- The arguments of the runtime that its containers depend on.
pub record Options : Type 0 where
  pub template_name : String
  pub enable_http : Option Bool
  pub enable_grpc : Option Bool
  pub resources : Option (List (String × List (String × List (String × String))))
  pub deployment_type : Option String
  pub runtime_image : Option String
  pub support_tgis_open_ai_endpoints : Bool

abbrev pub Configs : Type 0
Configs = List (String × Container)

-- `str(flag).lower()`
flag_text : Bool → String
flag_text flag = if flag then "true" else "false"

set_flag : String → String → Option Bool → Env → Env
unfolding flag_text
set_flag flag_name name none env = env
set_flag flag_name name (some flag) env =
    if name == flag_name then record env { value = some (flag_text flag) } else env

unfoldable pub update_env : Options → String → Env → Env
unfolding set_flag flag_text
update_env o name env =
    set_flag "RUNTIME_GRPC_ENABLED" name o.enable_grpc
      (set_flag "RUNTIME_HTTP_ENABLED" name o.enable_http env)

abbrev pub is_enabled : Option Bool → Bool
is_enabled none = false
is_enabled (some flag) = flag

-- `env["name"]`
env_name : Env → Result String
env_name env = elim env.name [ none ↦ err key_error | some name ↦ ok name ]

runtime_grpc_port : Port
runtime_grpc_port = record { container_port = 8085; name = "h2c"; protocol = "TCP" }

-- `container["ports"][0] = ...`
set_first_port : Container → Result Container
unfolding runtime_grpc_port
set_first_port container = elim (lookup "ports" container) [
  | none ↦ err key_error
  | some (ports []) ↦ err index_error
  | some (ports (p ∷ rest)) ↦ ok (put "ports" (ports (runtime_grpc_port ∷ rest)) container)
  | _ ↦ err type_error
]

-- The loop over a container's environment: what becomes of the variables, and of the container, whose
-- first port the loop may replace.
loop_envs : Options → List Env → Container → Result (List Env × Container)
unfolding update_env set_flag flag_text set_first_port runtime_grpc_port env_name
loop_envs o [] container = ok ([], container)
loop_envs o (env ∷ rest) container = do
  name ← env_name env
  opened ←
      (if name == "RUNTIME_GRPC_ENABLED" && is_enabled o.enable_grpc
        then set_first_port container
        else ok container)
  (updated, last) ← loop_envs o rest opened
  ok (update_env o name env ∷ updated, last)

unfoldable pub update_envs : Options → Container → Result Container
unfolding loop_envs update_env set_flag flag_text set_first_port runtime_grpc_port env_name
update_envs o container = elim (lookup "env" container) [
  | none ↦ ok container
  | some (envs list) ↦ (do
    (updated, last) ← loop_envs o list container
    ok (put "env" (envs updated) last))
  | _ ↦ err type_error
]

resources_for :
    Option (List (String × List (String × List (String × String))))
    → Option String
    → List (String × List (String × String))
resources_for none name = []
resources_for (some resources) none = []
resources_for (some resources) (some name) = elim (lookup name resources) [
  | none ↦ []
  | some resource_dict ↦ resource_dict
]

update_resources : Options → Container → Container
unfolding resources_for
update_resources o container =
    let resource_dict = resources_for o.resources (name_of container) in
    if is_empty resource_dict then container else put "resources" (nested resource_dict) container

update_image : Options → Container → Container
update_image o container = elim o.runtime_image [
  | none ↦ container
  | some image ↦ put "image" (text image) container
]

without_model : Container → Result Container
without_model container = elim (lookup "args" container) [
  | none ↦ err key_error
  | some (texts args) ↦
      ok (put "args" (texts (keep (λ arg. not (in_text "--model" arg)) args)) container)
  | _ ↦ err type_error
]

replace_last : String → String → List String → List String
replace_last new x [] = new ∷ []
replace_last new x (y ∷ rest) = x ∷ replace_last new y rest

-- `container["command"][-1] = ...`
set_command : Container → Result Container
unfolding replace_last
set_command container = elim (lookup "command" container) [
  | none ↦ err key_error
  | some (texts []) ↦ err index_error
  | some (texts (x ∷ rest)) ↦
      ok (put "command" (texts (replace_last grpc_command x rest)) container)
  | _ ↦ err type_error
]

-- A single entry point for the deployment type, given in lower case.
single_entrypoint : String → Container → Result Container
unfolding without_model set_command replace_last
single_entrypoint deployment container =
    let is_grpc = in_text "grpc" deployment in
    let is_raw = in_text "raw" deployment in
    do
      updated ← without_model container
      commanded ← (if is_grpc || is_raw then set_command updated else ok updated)
      ok (
          if is_grpc
          then put "ports" (ports grpc_ports) commanded
          else if is_raw
          then put "ports" (ports raw_ports) commanded
          else commanded)

unfoldable pub support_endpoints : Options → Container → Result Container
unfolding single_entrypoint without_model set_command replace_last
support_endpoints o container =
    if not o.support_tgis_open_ai_endpoints || not (in_text "vllm" o.template_name)
    then ok container
    else elim o.runtime_image [
      | none ↦ ok container
      | some image ↦ elim o.deployment_type [
        | none ↦ ok container
        | some deployment_type ↦ single_entrypoint (lower deployment_type) container
      ]
    ]

-- `container[key] = value` for each item of the configuration.
unfoldable pub override : Container → Container → Container
override [] container = container
override ((key, value) ∷ config) container = override config (put key value container)

-- `containers_to_add.pop(name)`: what is left.
unfoldable pub pop_config : String → Configs → Configs
pop_config name configs = keep (λ (c : String × Container). not (c.0 == name)) configs

unfoldable pub config_of : Option String → Configs → Option Container
config_of none configs = none
config_of (some name) configs = lookup name configs

-- One container, up to the override.
unfoldable pub update_container : Options → Container → Result Container
unfolding update_resources resources_for update_image
update_container o container = do
  with_envs ← update_envs o container
  support_endpoints o (update_image o (update_resources o with_envs))

left_configs : Option String → Configs → Configs
unfolding pop_config
left_configs none configs = configs
left_configs (some name) configs = pop_config name configs

overridden : Option Container → Container → Container
unfolding override
overridden none container = container
overridden (some config) container = override config container

-- The template's containers, and the configurations that none of them has taken.
unfoldable pub update_containers :
    Options → Configs → List Container → Result (List Container × Configs)
unfolding update_container left_configs pop_config overridden override config_of
update_containers o to_add [] = ok ([], to_add)
update_containers o to_add (container ∷ rest) = do
  updated ← update_container o container
  (containers, left) ← update_containers o (left_configs (name_of container) to_add) rest
  ok (overridden (config_of (name_of container) to_add) updated ∷ containers, left)

unfoldable pub new_containers : Configs → List Container
unfolding override
new_containers [] = []
new_containers ((name, config) ∷ rest) =
    override config (("name", text name) ∷ []) ∷ new_containers rest

-- All containers of the runtime.
unfoldable pub all_containers : Options → Configs → List Container → Result (List Container)
unfolding update_containers new_containers override
all_containers o containers template = do
  (updated, left) ← update_containers o containers template
  ok (updated ++ new_containers left)
