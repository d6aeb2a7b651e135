-- ===== src/Cluster/Lookups/Found.antt =====
-- The wait for a service's pods.
use opendatahub_tests.Shared.{
  String, not, Option, none, some, List, [], ◌∷◌, first, is_empty, map, ◌≡◌, refl, arith,
}
use opendatahub_tests.Serving.Modes.{create_isvc_label_selector_str}
use opendatahub_tests.Cluster.Errors.{Lookup, ok}
use opendatahub_tests.Cluster.Lookups.{
  some_found, by_selector, get_pods_by_isvc_label, wait_for_isvc_pods,
}

-- For a service whose labels are known the wait gives the pods of the first call that found any; the
-- time is up if no call did.
pub wait_for_isvc_pods-first {ℓ} :
    {R : Type ℓ} (mode : Option String) (name : String) (runtime : Option String) (label : String)
    (samples : List (String → List R))
    → create_isvc_label_selector_str mode name "pod" runtime ≡ ok label
    → wait_for_isvc_pods mode name runtime samples
      ≡ elim (first (λ pods. not (is_empty pods)) (map (λ get. get label) samples))
          as (λ _. Option (Lookup (List R))) [ none ↦ none | some pods ↦ some (ok pods) ]
unfolding wait_for_isvc_pods get_pods_by_isvc_label by_selector some_found
wait_for_isvc_pods-first mode name runtime label [] e = refl
wait_for_isvc_pods-first mode name runtime label (get ∷ samples) e =
    ground (arith, e, wait_for_isvc_pods-first mode name runtime label samples e)
