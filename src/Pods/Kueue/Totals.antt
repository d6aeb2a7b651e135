-- ===== src/Pods/Kueue/Totals.antt =====
-- The two counts of pods.
use opendatahub_tests.Shared.{
  ℕ, ◌+◌, ◌≤◌, ◌≡◌, true, false, List, [], ◌∷◌, arith, keep, length, eq_iff,
}
use opendatahub_tests.Pods.Kueue.{
  QueuedPod, is_running_pod, is_gated_pod, count_pods, check_gated_pods_and_running_pods,
}

not_both : (pod : QueuedPod) → is_running_pod pod ≡ true → is_gated_pod pod ≡ false
unfolding is_running_pod is_gated_pod
not_both pod h =
    ground
      (arith, eq_iff pod.phase "Running", eq_iff pod.phase "Pending", eq_iff "Running" "Pending")

count_pods-eq :
    (r g : ℕ) (pods : List QueuedPod)
    → ((count_pods r g pods).0 ≡ r + length (keep is_running_pod pods))
      × ((count_pods r g pods).1 ≡ g + length (keep is_gated_pod pods))
unfolding count_pods
count_pods-eq r g [] = (omega arith, omega arith)
count_pods-eq r g (pod ∷ pods) = (
  ground
      (arith, count_pods-eq (r + 1) g pods, count_pods-eq r (g + 1) pods, count_pods-eq r g pods),
  ground (
    arith,
    not_both pod,
    count_pods-eq (r + 1) g pods,
    count_pods-eq r (g + 1) pods,
    count_pods-eq r g pods,
  ),
)

disjoint_counts :
    (pods : List QueuedPod)
    → length (keep is_running_pod pods) + length (keep is_gated_pod pods) ≤ length pods
disjoint_counts [] = omega arith
disjoint_counts (pod ∷ pods) = ground (arith, not_both pod, disjoint_counts pods)

-- The function returns the number of running pods and the number of gated ones; no pod counts as
-- both, so the two together are at most the number of pods.
pub check_gated_pods_and_running_pods-eq :
    (pods : List QueuedPod)
    → let counts = check_gated_pods_and_running_pods pods in
      (counts.0 ≡ length (keep is_running_pod pods))
      × (counts.1 ≡ length (keep is_gated_pod pods))
      × (counts.0 + counts.1 ≤ length pods)
unfolding check_gated_pods_and_running_pods
check_gated_pods_and_running_pods-eq pods =
    let (r, g) = count_pods-eq 0 0 pods in
    (omega arith, omega arith, omega (arith, disjoint_counts pods))
