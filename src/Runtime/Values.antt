-- ===== src/Runtime/Values.antt =====
-- A template's dictionaries, as `to_dict` gives them, and the errors of the updates.
pub use opendatahub_tests.Shared.{ok, err, ◌>>=◌}
use opendatahub_tests.Shared.{ℕ, String, Option, none, some, List, [], ◌∷◌, lookup, Fallible}

pub data Error : Type 0 where
  resource_not_found key_error index_error type_error : Error

abbrev pub Result {ℓ} : Type ℓ → Type ℓ
Result A = Fallible Error A

-- A variable of an environment, as a dictionary; other keys are left out.
pub record Env : Type 0 where
  pub name : Option String
  pub value : Option String

pub record Port : Type 0 where
  pub container_port : ℕ
  pub name : String
  pub protocol : String

-- The values of a container's keys; `nested` is a dictionary of dictionaries, as its resources are.
pub data Value : Type 0 where
  text : String → Value
  texts : List String → Value
  envs : List Env → Value
  ports : List Port → Value
  nested : List (String × List (String × String)) → Value

abbrev pub Container : Type 0
Container = List (String × Value)

-- `container.get("name")`
abbrev pub as_name : Option Value → Option String
as_name (some (text name)) = some name
as_name _ = none

abbrev pub name_of : Container → Option String
name_of container = as_name (lookup "name" container)

abbrev pub grpc_port : Port
grpc_port = record { container_port = 8033; name = "h2c"; protocol = "TCP" }

abbrev pub rest_port : Port
rest_port = record { container_port = 8080; name = "http1"; protocol = "TCP" }

-- The port configurations and the command of `vLLM_CONFIG`.
abbrev pub grpc_ports : List Port
grpc_ports = grpc_port ∷ []

abbrev pub raw_ports : List Port
raw_ports = rest_port ∷ grpc_port ∷ []

abbrev pub grpc_command : String
grpc_command = "vllm_tgis_adapter"
