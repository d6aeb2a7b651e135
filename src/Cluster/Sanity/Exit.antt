-- ===== src/Cluster/Sanity/Exit.antt =====
-- When the sanity check ends the session.
use opendatahub_tests.Shared.{
  String, Bool, true, false, ◌&&◌, ◌||◌, none, some, List, [], ◌∷◌, if◌then◌else◌, has, ◌≡◌, refl,
  arith,
}
use opendatahub_tests.Cluster.Sanity.{
  wait_for_dsci_status_ready, wait_for_dsc_status_ready, NodeCheck, healthy, not_ready,
  unschedulable, other_error, skipped, passed, exited, raised, exit_session, verify_cluster_sanity,
}

wait_for_dsci_status_ready-has :
    (ready : String) (samples : List String)
    → wait_for_dsci_status_ready ready samples ≡ has samples ready
unfolding wait_for_dsci_status_ready
wait_for_dsci_status_ready-has ready [] = refl
wait_for_dsci_status_ready-has ready (s ∷ samples) =
    ground (arith, wait_for_dsci_status_ready-has ready samples)

wait_for_dsc_status_ready-has :
    (ready : String) (samples : List String)
    → wait_for_dsc_status_ready ready samples ≡ has samples ready
unfolding wait_for_dsc_status_ready
wait_for_dsc_status_ready-has ready [] = refl
wait_for_dsc_status_ready-has ready (s ∷ samples) =
    ground (arith, wait_for_dsc_status_ready-has ready samples)

abbrev pub nodes_healthy : NodeCheck → Bool
nodes_healthy healthy = true
nodes_healthy _ = false

abbrev pub unforeseen : NodeCheck → Bool
unforeseen other_error = true
unforeseen _ = false

-- The check is passed over if that was asked for. Otherwise, unless the nodes raise an error of
-- another kind, it is passed if the nodes are healthy and, if the operator's resources are to be
-- checked, either of the two is seen ready in time; and if not, the session ends with code 99, which
-- is put into the report if there is one.
pub verify_cluster_sanity-eq :
    (ready : String) (skip skip_rhoai junit : Bool) (nodes : NodeCheck) (dsci dsc : List String)
    → verify_cluster_sanity ready skip skip_rhoai junit nodes dsci dsc ≡ (
        if skip
        then skipped
        else if unforeseen nodes
        then raised
        else if nodes_healthy nodes && (skip_rhoai || (has dsci ready && has dsc ready))
        then passed
        else exited 99 (if junit then some 99 else none))
unfolding verify_cluster_sanity exit_session
verify_cluster_sanity-eq ready true skip_rhoai junit nodes dsci dsc = refl
verify_cluster_sanity-eq ready false skip_rhoai junit other_error dsci dsc = refl
verify_cluster_sanity-eq ready false skip_rhoai junit not_ready dsci dsc = refl
verify_cluster_sanity-eq ready false skip_rhoai junit unschedulable dsci dsc = refl
verify_cluster_sanity-eq ready false skip_rhoai junit healthy dsci dsc =
    ground
      (arith, wait_for_dsci_status_ready-has ready dsci, wait_for_dsc_status_ready-has ready dsc)
