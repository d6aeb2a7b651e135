-- ===== src/Cluster/Tests.antt =====
-- Concrete resources, a resource editor on dictionaries, and instances of the theorems on them.
use opendatahub_tests.Shared.{
  String, Bool, true, false, not, ◌&&◌, ◌||◌, Option, none, some, List, [], ◌∷◌, ◌++◌, ◌==◌,
  if◌then◌else◌, keep, lookup, ◌≡◌, refl, arith, eq_iff, any, all, join,
}
use opendatahub_tests.Cluster.Components.{States, ResourceEditor, update_components_in_dsc, plan}
use opendatahub_tests.Cluster.Components.Restored.{
  final-update_components_in_dsc, entered-update_components_in_dsc,
}
use opendatahub_tests.Cluster.Namespaces.{
  Arguments, Course, create_ns, namespace_labels, or_empty, there, gone,
}
use opendatahub_tests.Cluster.Namespaces.Labels.{lookup-namespace_labels}
use opendatahub_tests.Cluster.Namespaces.Teardown.{deletes, has_annotations, any-deletes-create_ns}
use opendatahub_tests.Cluster.Errors.{ok}
use opendatahub_tests.Serving.Modes.{create_isvc_label_selector_str}
use opendatahub_tests.Cluster.Lookups.{wait_for_isvc_pods}
use opendatahub_tests.Cluster.Lookups.Found.{wait_for_isvc_pods-first}
use opendatahub_tests.Cluster.Sanity.{verify_cluster_sanity, exited, healthy}
use opendatahub_tests.Cluster.Sanity.Exit.{verify_cluster_sanity-eq}
use opendatahub_tests.Cluster.Access.{get_openshift_token}
use opendatahub_tests.Cluster.Access.Token.{get_openshift_token-bearer}

lookup-join :
    (k : String) (m n : States)
    → lookup k (m ++ n)
      ≡ elim (lookup k m) as (λ _. Option String) [ none ↦ lookup k n | some v ↦ some v ]
lookup-join k [] n = refl
lookup-join k ((j, v) ∷ m) n = ground (arith, lookup-join k m n)

lookup-keep :
    (p : String → Bool) (k : String) (m : States)
    → lookup k (keep (λ (e : String × String). p e.0) m) ≡ (if p k then lookup k m else none)
lookup-keep p k [] = ground arith
lookup-keep p k ((j, v) ∷ m) = ground (arith, eq_iff j k, lookup-keep p k m)

abbrev patches : States → String → Bool
patches patch k = elim (lookup k patch) [ none ↦ false | some v ↦ true ]

abbrev put_back : States → States → States → States
put_back patch s t =
    keep (λ (e : String × String). patches patch e.0) s
    ++ keep (λ (e : String × String). not (patches patch e.0)) t

lookup-put_back :
    (patch s t : States) (k : String)
    → lookup k (put_back patch s t)
      ≡ elim (lookup k patch) as (λ _. Option String) [ none ↦ lookup k t | some v ↦ lookup k s ]
lookup-put_back patch s t k = ground (
  arith,
  lookup-join k (keep (λ (e : String × String). patches patch e.0) s)
      (keep (λ (e : String × String). not (patches patch e.0)) t),
  lookup-keep (patches patch) k s,
  lookup-keep (λ j. not (patches patch j)) k t,
)

abbrev dictionary_editor : ResourceEditor
dictionary_editor = record {
  enter = λ patch s. patch ++ s;
  leave = put_back;
  lookup-enter = λ patch s k. lookup-join k patch s;
  lookup-leave = lookup-put_back;
}

abbrev dsc_states : States
dsc_states = ("kserve", "Removed") ∷ ("modelregistry", "Managed") ∷ []

abbrev asked_states : States
asked_states = ("kserve", "Managed") ∷ ("modelregistry", "Managed") ∷ []

abbrev other_work : States → Bool × States
other_work s = (false, ("kserve", "Unmanaged") ∷ s)

final-update_components_in_dsc_example :
    lookup "kserve"
      (update_components_in_dsc dictionary_editor
        (λ s c. true)
        asked_states
        true
        other_work
        dsc_states).final_
    ≡ some "Removed"
unfolding update_components_in_dsc plan
final-update_components_in_dsc_example =
    final-update_components_in_dsc dictionary_editor (λ s c. true) asked_states true other_work
      dsc_states "kserve" refl

entered-update_components_in_dsc_example :
    lookup "kserve" (("kserve", "Managed") ∷ dsc_states)
    ≡ elim (lookup "kserve" asked_states) as (λ _. Option String) [
      | none ↦ lookup "kserve" dsc_states
      | some v ↦ some v
    ]
unfolding update_components_in_dsc plan
entered-update_components_in_dsc_example =
    entered-update_components_in_dsc dictionary_editor (λ s c. true) asked_states true other_work
      dsc_states (("kserve", "Managed") ∷ dsc_states) "kserve" refl refl

abbrev project_arguments : Arguments
project_arguments = record {
  name = some "models";
  unprivileged_client = true;
  teardown = true;
  delete_timeout = 240;
  labels = some (("opendatahub.io/dashboard", "false") ∷ []);
  ns_annotations = none;
  model_mesh_enabled = false;
  add_dashboard_label = true;
  add_kueue_label = false;
  randomize_name = true;
}

abbrev quiet_course : Course
quiet_course = record {
  active = true;
  body_raises = false;
  pods =
      gone
      ∷ there "predictor" (some (("serving.kserve.io/deploymentMode", "Serverless") ∷ []))
      ∷ [];
}

any-deletes-create_ns_example :
    any deletes (create_ns "0123456789abcdef0123456789abcdef" none project_arguments quiet_course)
    ≡ (if project_arguments.unprivileged_client
        then project_arguments.teardown
          && not quiet_course.body_raises
          && all has_annotations quiet_course.pods
        else project_arguments.teardown)
any-deletes-create_ns_example =
    any-deletes-create_ns "0123456789abcdef0123456789abcdef" none project_arguments quiet_course

lookup-namespace_labels_example :
    lookup "opendatahub.io/dashboard" (namespace_labels project_arguments) ≡ (
      if (project_arguments.model_mesh_enabled && "modelmesh-enabled" == "opendatahub.io/dashboard")
        || (project_arguments.add_dashboard_label
            && "opendatahub.io/dashboard" == "opendatahub.io/dashboard")
        || (project_arguments.add_kueue_label
            && "kueue.openshift.io/managed" == "opendatahub.io/dashboard")
      then some "true"
      else lookup "opendatahub.io/dashboard" (or_empty project_arguments.labels))
lookup-namespace_labels_example =
    lookup-namespace_labels project_arguments "opendatahub.io/dashboard"

abbrev no_pods : String → List String
no_pods label = []

abbrev one_pod : String → List String
one_pod label = join label "-pod" ∷ []

wait_for_isvc_pods-first_example :
    wait_for_isvc_pods (some "Serverless") "m" none (no_pods ∷ one_pod ∷ [])
    ≡ some (ok (one_pod "serving.kserve.io/inferenceservice=m"))
unfolding create_isvc_label_selector_str
wait_for_isvc_pods-first_example =
    wait_for_isvc_pods-first (some "Serverless") "m" none "serving.kserve.io/inferenceservice=m"
      (no_pods ∷ one_pod ∷ []) refl

verify_cluster_sanity-eq_example :
    verify_cluster_sanity "Ready" false false true healthy ("Progressing" ∷ "Ready" ∷ []) []
    ≡ exited 99 (some 99)
verify_cluster_sanity-eq_example =
    verify_cluster_sanity-eq "Ready" false false true healthy ("Progressing" ∷ "Ready" ∷ []) []

get_openshift_token-bearer_example :
    get_openshift_token (join "Bearer " "sha256~abc") ≡ ok "sha256~abc"
get_openshift_token-bearer_example = get_openshift_token-bearer "sha256~abc" refl refl
