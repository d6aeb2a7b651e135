-- ===== src/Serving/Body.antt =====
-- `get_runtime_config`, the choice of the input in `get_inference_body` and the endpoint's URL, of
-- utilities/inference_utils.py. The substitution in templates is left out.
pub mod Choice
use opendatahub_tests.Shared.{
  ℕ, suc, zero, String, Bool, true, false, ◌&&◌, ◌||◌, not, Option, none, some, List, [], ◌∷◌, ◌==◌,
  if◌then◌else◌, has, lower, lookup, is_empty, in_text, given, join, starts_with,
}
use opendatahub_tests.Serving.Modes.{Result, ok, err, value_error, attribute_error}

abbrev pub tcp_protocols : List String
tcp_protocols = "http" ∷ "https" ∷ []

abbrev pub RuntimeConfig : Type 0
RuntimeConfig = List (String × String)

-- The default query of a model: one input, or one for each inference type.
pub record DefaultQuery : Type 0 where
  pub query_input : Option String
  pub by_type : List (String × Option String)

pub record InferenceConfig : Type 0 where
  pub types : List (String × List (String × RuntimeConfig))
  pub default_query_model : Option DefaultQuery
  pub support_multi_default_queries : Bool

unfoldable pub config_protocol : String → String
config_protocol protocol = if has tcp_protocols protocol then "http" else protocol

-- `d.get(key)` that has to be there and not empty.
unfoldable pub get_full {ℓ} : {V : Type ℓ} → String → List (String × List V) → Result (List V)
get_full key d = elim (lookup key d) [
  | none ↦ err value_error
  | some found ↦ if is_empty found then err value_error else ok found
]

unfoldable pub get_runtime_config : InferenceConfig → String → String → Result RuntimeConfig
get_runtime_config config inference_type protocol = elim (get_full inference_type config.types) [
  | err e ↦ err e
  | ok protocols ↦ get_full (config_protocol protocol) protocols
]

require_query : Option String → Result String
require_query none = err value_error
require_query (some query) = if query == "" then err value_error else ok query

-- A type without a default query has no `.get`.
default_input : InferenceConfig → String → DefaultQuery → Result String
default_input config inference_type query =
    if config.support_multi_default_queries
    then elim (lookup inference_type query.by_type) [
      | none ↦ err attribute_error
      | some input ↦ require_query input
    ]
    else require_query query.query_input

-- The input that `get_inference_body` puts into the body.
unfoldable pub inference_input : InferenceConfig → String → Option String → Bool → Result String
unfolding default_input require_query
inference_input config inference_type input true = elim config.default_query_model [
  | none ↦ err value_error
  | some query ↦ default_input config inference_type query
]
inference_input config inference_type none false = err value_error
inference_input config inference_type (some input) false = ok input

-- `get_inference_endpoint_url`, from the endpoint with the name put in.
unfoldable pub get_inference_endpoint_url : String → Bool → String → String → Result String
get_inference_endpoint_url protocol exposed url endpoint =
    if has tcp_protocols protocol
    then ok (join protocol (join "://" (join url (join "/" endpoint))))
    else if protocol == "grpc"
    then ok (join url (join (if exposed then ":443" else "") (join " " endpoint)))
    else err value_error
