-- ===== src/Pods/Kueue.antt =====
-- `check_gated_pods_and_running_pods` and the readiness check of `wait_for_kueue_crds_available` of
-- utilities/kueue_utils.py.
pub mod Totals
use opendatahub_tests.Shared.{
  ℕ, suc, zero, ◌+◌, String, Bool, true, false, ◌&&◌, ◌||◌, not, Option, none, some, List, [], ◌∷◌,
  ◌==◌, if◌then◌else◌, any, all, is_empty,
}

pub record Condition : Type 0 where
  pub type_ : String
  pub status : String
  pub reason : String

pub record QueuedPod : Type 0 where
  pub phase : String
  pub conditions : List Condition

abbrev pub is_gate : Condition → Bool
is_gate c = c.type_ == "PodScheduled" && c.status == "False" && c.reason == "SchedulingGated"

unfoldable pub is_running_pod : QueuedPod → Bool
is_running_pod pod = pod.phase == "Running"

unfoldable pub is_gated_pod : QueuedPod → Bool
is_gated_pod pod = pod.phase == "Pending" && all is_gate pod.conditions

count_pods : ℕ → ℕ → List QueuedPod → ℕ × ℕ
count_pods running_pods gated_pods [] = (running_pods, gated_pods)
count_pods running_pods gated_pods (pod ∷ pods) =
    let counted_running = count_pods (running_pods + 1) gated_pods pods in
    let counted_gated = count_pods running_pods (gated_pods + 1) pods in
    let counted = count_pods running_pods gated_pods pods in
    if is_running_pod pod
    then counted_running
    else if is_gated_pod pod
    then counted_gated
    else counted

unfoldable pub check_gated_pods_and_running_pods : List QueuedPod → ℕ × ℕ
unfolding count_pods
check_gated_pods_and_running_pods pods = count_pods 0 0 pods

-- One attempt of `wait_for_kueue_crds_available`, with the conditions of the controller's pods, and
-- the client library's names of the condition and its value.
unfoldable pub kueue_ready : String → String → List (List (String × String)) → Bool
kueue_ready ready yes_ pods =
    not (is_empty pods) && all (any (λ c. c.0 == ready && c.1 == yes_)) pods
