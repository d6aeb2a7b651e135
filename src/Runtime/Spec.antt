-- ===== src/Runtime/Spec.antt =====
-- `get_runtime_image_from_template` and the rest of `ServingRuntimeFromTemplate` of
-- utilities/serving_runtime.py: the template, its metadata, model formats and volumes.
pub mod Updated
use opendatahub_tests.Shared.{
  ℕ, String, Bool, true, false, not, ◌&&◌, Option, none, some, List, [], ◌∷◌, ◌==◌, if◌then◌else◌,
  lookup, put, map, is_empty, any,
}
use opendatahub_tests.Runtime.Values.{
  Result, ok, err, ◌>>=◌, resource_not_found, index_error, Value, text, Container,
}
use opendatahub_tests.Runtime.Containers.{Options, Configs, all_containers}

abbrev pub Dict : Type 0
Dict = List (String × String)

pub record Format : Type 0 where
  pub name : String
  pub version : Option String
  pub priority : Option String

-- `volumes` are told by a number.
pub record RuntimeSpec : Type 0 where
  pub multi_model : Option Bool
  pub containers : Option (List Container)
  pub supported_model_formats : Option (List Format)
  pub volumes : List ℕ

-- An object of a template; it may have no specification and no annotations.
pub record ModelDict : Type 0 where
  pub name : String
  pub namespace : String
  pub annotations : Option Dict
  pub spec : Option RuntimeSpec

-- A template's objects, if it exists.
abbrev pub Template : Type 0
Template = Option (List ModelDict)

containers_of : ModelDict → List Container
containers_of d = elim d.spec [
  | none ↦ []
  | some spec ↦ elim spec.containers [ none ↦ [] | some containers ↦ containers ]
]

unfoldable pub get_runtime_image_from_template : Template → Result String
unfolding containers_of
get_runtime_image_from_template none = err resource_not_found
get_runtime_image_from_template (some []) = err resource_not_found
get_runtime_image_from_template (some (d ∷ rest)) = elim (containers_of d) [
  | [] ↦ err resource_not_found
  | container ∷ more ↦ elim (lookup "image" container) [
    | some (text image) ↦ if image == "" then err resource_not_found else ok image
    | _ ↦ err resource_not_found
  ]
]

pub record Arguments : Type 0 where
  pub name : String
  pub namespace : String
  pub multi_model : Option Bool
  pub enable_external_route : Bool
  pub enable_auth : Bool
  pub protocol : Option String
  pub model_format_name : Option Dict
  pub models_priorities : Dict
  pub supported_model_formats : List Format
  pub volumes : List ℕ
  pub containers : Configs
  pub options : Options

unfoldable pub get_model_template : Template → Result (List ModelDict)
get_model_template none = err resource_not_found
get_model_template (some objects) = ok objects

unfoldable pub get_model_dict_from_template : Arguments → Template → Result ModelDict
unfolding get_model_template
get_model_dict_from_template a template = do
  objects ← get_model_template template
  (elim objects [
    | [] ↦ err index_error
    | d ∷ rest ↦ ok (record d { name = a.name; namespace = a.namespace })
  ])

set_default : Option Dict → Dict
set_default none = []
set_default (some annotations) = annotations

annotate : Bool → String → String → Option Dict → Option Dict
unfolding set_default
annotate asked key value annotations =
    if asked then some (put key value (set_default annotations)) else annotations

unfoldable pub update_annotations : Arguments → Option Dict → Option Dict
unfolding annotate set_default
update_annotations a annotations =
    let marked =
      annotate a.enable_auth "enable-auth" "true"
        (annotate a.enable_external_route "enable-route" "true" annotations) in
    elim a.protocol [
      | none ↦ marked
      | some protocol ↦ annotate true "opendatahub.io/apiProtocol" protocol marked
    ]

set_version : Option Dict → Format → Format
set_version none format = format
set_version (some versions) format = elim (lookup format.name versions) [
  | none ↦ format
  | some version ↦ record format { version = some version }
]

set_priority : Dict → Format → Format
set_priority priorities format = elim (lookup format.name priorities) [
  | none ↦ format
  | some priority ↦ record format { priority = some priority }
]

unfoldable pub update_formats : Arguments → Option (List Format) → Option (List Format)
unfolding set_version set_priority
update_formats a formats =
    if not (is_empty a.supported_model_formats)
    then some a.supported_model_formats
    else elim formats [
      | none ↦ none
      | some list ↦
          some
            (map (λ f. set_priority a.models_priorities (set_version a.model_format_name f)) list)
    ]

unfoldable pub update_spec : Arguments → RuntimeSpec → Result RuntimeSpec
unfolding update_formats set_version set_priority
update_spec a spec = do
  containers ←
      all_containers a.options a.containers (elim spec.containers [ none ↦ [] | some cs ↦ cs ])
  ok (record {
    multi_model = elim a.multi_model [ none ↦ spec.multi_model | some flag ↦ some flag ];
    containers = some containers;
    supported_model_formats = update_formats a spec.supported_model_formats;
    volumes = if is_empty a.volumes then spec.volumes else a.volumes;
  })

no_spec : RuntimeSpec
no_spec = record {
  multi_model = none;
  containers = none;
  supported_model_formats = none;
  volumes = [];
}

-- An object without a specification is updated on a dictionary of its own, which is thrown away.
unfoldable pub update_model_dict : Arguments → Template → Result ModelDict
unfolding get_model_dict_from_template get_model_template update_annotations annotate set_default
    update_spec update_formats set_version set_priority no_spec
update_model_dict a template = do
  d ← get_model_dict_from_template a template
  spec ← (elim d.spec as (λ _. Result (Option RuntimeSpec)) [
    | none ↦ (do thrown_away ← update_spec a no_spec; ok none)
    | some present ↦ (do updated ← update_spec a present; ok (some updated))
  ])
  ok (record d { annotations = update_annotations a d.annotations; spec = spec })
