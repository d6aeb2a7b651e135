-- ===== src/Cluster/Namespaces/Labels.antt =====
-- The labels of a namespace.
use opendatahub_tests.Shared.{
  String, Bool, ◌&&◌, ◌||◌, some, ◌==◌, if◌then◌else◌, lookup, lookup-put, ◌≡◌, arith,
}
use opendatahub_tests.Cluster.Namespaces.{Dict, Arguments, or_empty, add_label, namespace_labels}

lookup-add_label :
    (asked : Bool) (key k : String) (m : Dict)
    → lookup k (add_label asked key m) ≡ (if asked && key == k then some "true" else lookup k m)
unfolding add_label
lookup-add_label asked key k m = ground (arith, lookup-put key k "true" m)

-- A namespace has the labels that were given, and the three labels that can be asked for with the
-- value "true", whatever the given labels say of them.
pub lookup-namespace_labels :
    (a : Arguments) (k : String)
    → lookup k (namespace_labels a) ≡ (
        if (a.model_mesh_enabled && "modelmesh-enabled" == k)
          || (a.add_dashboard_label && "opendatahub.io/dashboard" == k)
          || (a.add_kueue_label && "kueue.openshift.io/managed" == k)
        then some "true"
        else lookup k (or_empty a.labels))
unfolding namespace_labels
lookup-namespace_labels a k =
    let first = add_label a.model_mesh_enabled "modelmesh-enabled" (or_empty a.labels) in
    let second = add_label a.add_dashboard_label "opendatahub.io/dashboard" first in
    ground (
      arith,
      lookup-add_label a.model_mesh_enabled "modelmesh-enabled" k (or_empty a.labels),
      lookup-add_label a.add_dashboard_label "opendatahub.io/dashboard" k first,
      lookup-add_label a.add_kueue_label "kueue.openshift.io/managed" k second,
    )
