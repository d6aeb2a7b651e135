-- ===== src/Llm/Access.antt =====
-- `create_llmd_gateway` and `get_llm_inference_url` of utilities/llmd_utils.py.
pub mod Urls
use opendatahub_tests.Shared.{
  ℕ, String, Bool, true, false, not, ◌&&◌, Option, none, some, List, [], ◌∷◌, ◌++◌, ◌==◌,
  if◌then◌else◌, join, given,
}
use opendatahub_tests.Cluster.Errors.{Lookup, LookupError, ok, err, runtime_error}

pub record Listener : Type 0 where
  pub name : String
  pub port : ℕ
  pub protocol : String
  pub allowed_routes_from : String

default_listeners : List Listener
default_listeners =
    record { name = "http"; port = 80; protocol = "HTTP"; allowed_routes_from = "All" } ∷ []

abbrev pub Dict : Type 0
Dict = List (String × String)

-- The infrastructure is its labels.
pub record GatewayBody : Type 0 where
  pub name : String
  pub namespace : String
  pub gateway_class_name : String
  pub listeners : List Listener
  pub infrastructure : Dict

pub data GatewayCall : Type 0 where
  wait_programmed yield_gateway : GatewayCall
  enter_gateway : GatewayBody → GatewayCall
  leave_gateway : Bool → GatewayCall

-- The calls, the body of the context manager among them. `disconnected` is
-- what the check of the cluster gives, which is made only where it is needed.
unfoldable pub create_llmd_gateway :
    Bool
    → Lookup Bool
    → String
    → String
    → String
    → Option (List Listener)
    → Option Dict
    → Bool
    → Bool
    → Lookup (List GatewayCall)
unfolding default_listeners
create_llmd_gateway exists disconnected name namespace gateway_class_name listeners infrastructure
      wait_for_condition teardown =
    let waits = if wait_for_condition then wait_programmed ∷ [] else [] in
    let body : GatewayBody = record {
      name = name;
      namespace = namespace;
      gateway_class_name = gateway_class_name;
      listeners = elim listeners [ none ↦ default_listeners | some given_ones ↦ given_ones ];
      infrastructure = elim infrastructure [
        | none ↦ ("serving.kserve.io/gateway", "kserve-ingress-gateway") ∷ []
        | some given_ones ↦ given_ones
      ];
    } in
    if exists then ok (waits ++ (yield_gateway ∷ [])) else elim disconnected [
      | err raised ↦ err raised
      | ok true ↦ err runtime_error
      | ok false ↦
          ok (enter_gateway body ∷ (waits ++ (yield_gateway ∷ leave_gateway teardown ∷ [])))
    ]

-- A service's status: the URLs of its addresses, and its own.
pub record Status : Type 0 where
  pub addresses : List (Option String)
  pub url : Option String

first_address : List (Option String) → Option String
first_address [] = none
first_address (url ∷ rest) = if given url then url else none

status_url : Status → Option String
unfolding first_address
status_url status =
    let address = first_address status.addresses in
    if given address then address else if given status.url then status.url else none

cluster_url : String → String → String
cluster_url service namespace =
    join "http://" (join service (join "." (join namespace ".svc.cluster.local")))

-- `services` is what the look-up of the services gives, an error included.
unfoldable pub get_llm_inference_url :
    Option Status → Lookup (List String) → String → String → String
unfolding status_url first_address cluster_url
get_llm_inference_url status services name namespace =
    let internal = elim services as (λ _. String) [
      | ok (service ∷ rest) ↦ cluster_url service namespace
      | _ ↦ cluster_url name namespace
    ] in
    elim status [
      | none ↦ internal
      | some s ↦ elim (status_url s) [ none ↦ internal | some url ↦ url ]
    ]
