-- ===== src/Serving/Ports/Fits.antt =====
-- Which port a test forwards.
use opendatahub_tests.Shared.{
  ℕ, String, Bool, ◌≡◌, refl, true, false, ◌&&◌, ◌||◌, not, Option, none, some, List, [], ◌∷◌, ◌↔◌,
  ◌==◌, if◌then◌else◌, arith, has, lower, first, Bool-cases, Option-cases, inl, inr,
}
use opendatahub_tests.Serving.Modes.{Result, ok, err, value_error}
use opendatahub_tests.Serving.Ports.{
  Target, ServicePort, port_fits, svc_port, svc_protocol, find_port, get_target_port,
}

-- The protocol in lower case that a service's port has to have: the web's three ride on TCP.
abbrev pub transport : String → String
transport protocol = if has ("http" ∷ "https" ∷ "grpc" ∷ []) protocol then "tcp" else lower protocol

-- The deployment modes of KServe: raw ones, and the serverless one.
abbrev pub by_kserve : Option String → Bool
by_kserve none = false
by_kserve (some mode) = has ("RawDeployment" ∷ "Standard" ∷ []) mode || mode == "Serverless"

abbrev pub says : Option String → String → Bool
says none t = false
says (some s) t = s == t

-- A port of a KServe service that rides on the protocol, or one of Model Mesh which besides is named
-- after the protocol.
abbrev pub serves : Target → ServicePort → Bool
serves t p =
    lower p.protocol == transport t.protocol
    && (by_kserve t.deployment_mode
        || (says t.deployment_mode "ModelMesh" && says p.name t.protocol))

abbrev pub number_of : Option ServicePort → Result ℕ
number_of none = err value_error
number_of (some p) = elim p.target_port as (λ _. Result ℕ) [ none ↦ ok p.port | some n ↦ ok n ]

lower-svc_protocol : (t : Target) → lower (svc_protocol t) ≡ transport t.protocol
unfolding svc_protocol lower
lower-svc_protocol t = elim (Bool-cases (has ("http" ∷ "https" ∷ "grpc" ∷ []) t.protocol)) [
  | inl e ↦ rw (e, svc_protocol) refl
  | inr e ↦ rw (e, svc_protocol) refl
]

port_fits-serves : (t : Target) (p : ServicePort) → port_fits t p ≡ serves t p
unfolding port_fits
port_fits-serves t p = elim (Option-cases t.deployment_mode) [
  | inl e ↦ rw (lower-svc_protocol t) (ground (arith, e))
  | inr (mode, e) ↦ elim (Option-cases p.name) [
    | inl f ↦ rw (lower-svc_protocol t) (ground (arith, e, f))
    | inr (name, f) ↦ rw (lower-svc_protocol t) (ground (arith, e, f))
  ]
]

find_port-first :
    (t : Target) (ports : List ServicePort) → find_port t ports ≡ number_of (first (serves t) ports)
unfolding find_port svc_port
find_port-first t [] = refl
find_port-first t (p ∷ ports) = ground (arith, port_fits-serves t p, find_port-first t ports)

-- Of a service on one node, or one that is exposed, the port is that of the first service port on the
-- protocol, TCP for HTTP, HTTPS and gRPC, in a deployment mode of KServe, or in that of Model Mesh if
-- the port is also named after the protocol: its target port, if that is a number, or else its own. If
-- there is no such port, an error is raised.
pub get_target_port-fits :
    (t : Target)
    → (t.multi_node && not t.visibility_exposed) ≡ false
    → get_target_port t ≡ number_of (first (serves t) t.ports)
unfolding get_target_port
get_target_port-fits t single = ground (arith, single, find_port-first t t.ports)

-- Of an internal multi-node service the ports of the service make no difference, and an error is
-- raised exactly if the pod has no port.
pub get_target_port-multi_node :
    (t : Target) (ports : List ServicePort)
    → (t.multi_node && not t.visibility_exposed) ≡ true
    → (get_target_port t ≡ get_target_port (record t { ports = ports }))
      × ((get_target_port t ≡ err value_error) ↔ (t.pod_ports ≡ []))
unfolding get_target_port
get_target_port-multi_node t ports spread = (ground arith, ground arith)
