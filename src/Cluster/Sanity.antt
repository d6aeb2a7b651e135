-- ===== src/Cluster/Sanity.antt =====
-- `verify_cluster_sanity` of utilities/infra.py and the waits that it makes. The time of a wait is
-- up where the list of its samples ends.
pub mod Exit
use opendatahub_tests.Shared.{
  ℕ, String, Bool, true, false, not, ◌&&◌, ◌||◌, Option, none, some, List, [], ◌∷◌, ◌==◌,
  if◌then◌else◌,
}

-- A sample is the resource's status; another one than ready raises, which is retried.
-- The first argument is what the client library calls the ready status.
unfoldable pub wait_for_dsci_status_ready : String → List String → Bool
wait_for_dsci_status_ready ready [] = false
wait_for_dsci_status_ready ready (status ∷ samples) =
    status == ready || wait_for_dsci_status_ready ready samples

unfoldable pub wait_for_dsc_status_ready : String → List String → Bool
wait_for_dsc_status_ready ready [] = false
wait_for_dsc_status_ready ready (status ∷ samples) =
    status == ready || wait_for_dsc_status_ready ready samples

-- What the two assertions of the client library on the nodes raise.
pub data NodeCheck : Type 0 where
  healthy not_ready unschedulable other_error : NodeCheck

pub data Sanity : Type 0 where
  skipped passed : Sanity
  -- the session ends with this code, which is put into the report or not
  exited : ℕ → Option ℕ → Sanity
  raised : Sanity

-- `None` stands for a report that was not passed.
unfoldable pub exit_session : Bool → Sanity
exit_session junitxml_property = exited 99 (if junitxml_property then some 99 else none)

unfoldable pub verify_cluster_sanity :
    String → Bool → Bool → Bool → NodeCheck → List String → List String → Sanity
unfolding exit_session
verify_cluster_sanity ready true skip_rhoai junit nodes dsci dsc = skipped
verify_cluster_sanity ready false skip_rhoai junit other_error dsci dsc = raised
verify_cluster_sanity ready false skip_rhoai junit not_ready dsci dsc = exit_session junit
verify_cluster_sanity ready false skip_rhoai junit unschedulable dsci dsc = exit_session junit
verify_cluster_sanity ready false skip_rhoai junit healthy dsci dsc =
    if skip_rhoai
    then passed
    else if wait_for_dsci_status_ready ready dsci && wait_for_dsc_status_ready ready dsc
    then passed
    else exit_session junit
