-- ===== src/Serving/Ports.antt =====
-- `get_target_port` of utilities/inference_utils.py.
pub mod Fits
use opendatahub_tests.Shared.{
  ℕ, String, Bool, true, false, ◌&&◌, ◌||◌, not, Option, none, some, List, [], ◌∷◌, ◌==◌,
  if◌then◌else◌, has, lower,
}
use opendatahub_tests.Serving.Modes.{
  serverless, model_mesh, raw_deployment_modes, Result, ok, err, value_error, is_mode, in_modes,
  is_kserve,
}

-- A port of a service. `target_port` is there if it is a number, and not a name.
pub record ServicePort : Type 0 where
  pub port : ℕ
  pub target_port : Option ℕ
  pub protocol : String
  pub name : Option String

-- What the method reads: whether the service is an inference service with a worker (and so spread
-- over several nodes), the ports of its first pod's first container, and those of the service.
pub record Target : Type 0 where
  pub protocol : String
  pub deployment_mode : Option String
  pub visibility_exposed : Bool
  pub multi_node : Bool
  pub pod_ports : List ℕ
  pub ports : List ServicePort

abbrev pub all_supported_protocols : List String
all_supported_protocols = "http" ∷ "https" ∷ "grpc" ∷ []

unfoldable pub svc_protocol : Target → String
svc_protocol t = if has all_supported_protocols t.protocol then "TCP" else t.protocol

unfoldable pub port_fits : Target → ServicePort → Bool
port_fits t p =
    let same = lower p.protocol == lower (svc_protocol t) in
    (is_mode t.deployment_mode model_mesh && same && is_mode p.name t.protocol)
    || (in_modes t.deployment_mode raw_deployment_modes || is_mode t.deployment_mode serverless)
      && same

unfoldable pub svc_port : ServicePort → ℕ
svc_port p = elim p.target_port [ none ↦ p.port | some n ↦ n ]

unfoldable pub find_port : Target → List ServicePort → Result ℕ
find_port t [] = err value_error
find_port t (p ∷ ports) = if port_fits t p then ok (svc_port p) else find_port t ports

-- The pod's ports take the place of the service's, also where there are none.
unfoldable pub pod_port : List ℕ → Result ℕ
pod_port [] = err value_error
pod_port (p ∷ ports) = ok p

-- Without ports, as with none that fits, the method raises.
unfoldable pub get_target_port : Target → Result ℕ
unfolding pod_port
get_target_port t =
    if t.multi_node && not t.visibility_exposed then pod_port t.pod_ports else find_port t t.ports
