-- ===== src/Cluster/Lookups.antt =====
-- What utilities/infra.py looks up by labels: services, pods, routes and runtimes. The client's
-- `get` is an argument, from a label selector to the resources.
pub mod Found
use opendatahub_tests.Shared.{
  String, Bool, true, false, Option, none, some, List, [], ◌∷◌, if◌then◌else◌, join, Fallible,
}
use opendatahub_tests.Serving.Modes.{
  Error, create_isvc_label_selector_str, create_ig_pod_label_selector_str,
}
use opendatahub_tests.Cluster.Errors.{Lookup, LookupError, ok, err, resource_not_found, selector}

module _ {ℓ} {R : Type ℓ} where
  -- The resources, of which there must be one.
  unfoldable pub some_found : List R → Lookup (List R)
  some_found [] = err resource_not_found
  some_found (r ∷ rest) = ok (r ∷ rest)

  by_selector : (String → List R) → Fallible Error String → Lookup (List R)
  unfolding some_found
  by_selector get (err raised) = err (selector raised)
  by_selector get (ok label_selector) = some_found (get label_selector)

  unfoldable pub get_services_by_isvc_label :
      (String → List R) → Option String → String → Option String → Lookup (List R)
  unfolding by_selector some_found
  get_services_by_isvc_label get deployment_mode name runtime_name =
      by_selector get (create_isvc_label_selector_str deployment_mode name "service" runtime_name)

  unfoldable pub get_pods_by_isvc_label :
      (String → List R) → Option String → String → Option String → Lookup (List R)
  unfolding by_selector some_found
  get_pods_by_isvc_label get deployment_mode name runtime_name =
      by_selector get (create_isvc_label_selector_str deployment_mode name "pod" runtime_name)

  unfoldable pub get_pods_by_ig_label : (String → List R) → String → Lookup (List R)
  unfolding some_found
  get_pods_by_ig_label get name = some_found (get (create_ig_pod_label_selector_str name))

  -- The first route.
  unfoldable pub get_model_route : (String → List R) → String → Lookup R
  get_model_route get name = elim (get (join "inferenceservice-name=" name)) [
    | [] ↦ err resource_not_found
    | r ∷ rest ↦ ok r
  ]

  -- `read` gives the runtime of that name, if it exists.
  unfoldable pub get_inference_serving_runtime : (String → Option R) → String → Lookup R
  get_inference_serving_runtime read runtime_name = elim (read runtime_name) [
    | none ↦ err resource_not_found
    | some runtime ↦ ok runtime
  ]

  -- A sample is a call that is retried where no pod was found; `none`: the time is up. Any other
  -- error ends the wait.
  unfoldable pub wait_for_isvc_pods :
      Option String → String → Option String → List (String → List R) → Option (Lookup (List R))
  wait_for_isvc_pods deployment_mode name runtime_name [] = none
  wait_for_isvc_pods deployment_mode name runtime_name (get ∷ samples) =
      elim (get_pods_by_isvc_label get deployment_mode name runtime_name) [
        | ok pods ↦ some (ok pods)
        | err resource_not_found ↦ wait_for_isvc_pods deployment_mode name runtime_name samples
        | err raised ↦ some (err raised)
      ]
