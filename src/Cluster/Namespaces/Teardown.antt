-- ===== src/Cluster/Namespaces/Teardown.antt =====
-- What is left of a namespace or a project.
use opendatahub_tests.Shared.{
  String, Bool, true, false, not, ◌&&◌, Option, none, some, List, [], ◌∷◌, if◌then◌else◌, any, all,
  ◌≡◌, refl, arith,
}
use opendatahub_tests.Cluster.Namespaces.{
  Arguments, Params, NamespacePod, gone, missing, there, Call, leave_namespace, clean_up, Course,
  in_namespace, in_project, with_params, create_ns, wait_for_serverless_pods_deletion,
}

pub has_annotations : NamespacePod → Bool
has_annotations (there name none) = false
has_annotations _ = true

pub deletes : Call → Bool
deletes (leave_namespace teardown) = teardown
deletes clean_up = true
deletes _ = false

ended-wait :
    (pods : List NamespacePod)
    → (wait_for_serverless_pods_deletion pods).1 ≡ all has_annotations pods
unfolding wait_for_serverless_pods_deletion has_annotations
ended-wait [] = refl
ended-wait (gone ∷ pods) = ended-wait pods
ended-wait (missing ∷ pods) = ended-wait pods
ended-wait (there name none ∷ pods) = refl
ended-wait (there name (some annotations) ∷ pods) = ground (arith, ended-wait pods)

-- With the admin's client the namespace is deleted in the end exactly if the teardown was asked for,
-- whatever happens; a project of another user is deleted if besides the body does not raise and
-- every pod that is still there has annotations.
pub any-deletes-create_ns :
    (hex : String) (request : Option Params) (a : Arguments) (c : Course)
    → any deletes (create_ns hex request a c) ≡ (
        if a.unprivileged_client
        then a.teardown && not c.body_raises && all has_annotations c.pods
        else a.teardown)
unfolding create_ns with_params in_namespace in_project deletes
any-deletes-create_ns hex none a c = ground (arith, ended-wait c.pods)
any-deletes-create_ns hex (some p) a c = ground (arith, ended-wait c.pods)
