-- ===== src/Pods/Status/NotRunning.antt =====
-- When a namespace counts as running.
use opendatahub_tests.Shared.{
  String, ◌≡◌, refl, Bool, true, false, ◌&&◌, ◌||◌, not, none, some, List, [], ◌∷◌, ◌++◌, arith,
  if◌then◌else◌, has, any, all, is_empty, Option-cases, inl, inr,
}
use opendatahub_tests.Pods.Status.{
  Container, PodInstance, Pod, Problem, get_pod_container_error_status, container_problem,
  pod_problems, get_not_running_pods,
}

abbrev is_waiting : Container → Bool
is_waiting c = elim c.waiting [ none ↦ false | some why ↦ true ]

-- No container waits, the pod is not being deleted, and its phase is one of the running ones.
abbrev pub is_running : List String → PodInstance → Bool
is_running phases pod =
    not (any is_waiting pod.containers) && not pod.deletion_timestamp && has phases pod.phase

is_empty-container_problem :
    (name : String) (cs : List Container)
    → is_empty (container_problem name cs) ≡ not (any is_waiting cs)
unfolding container_problem get_pod_container_error_status
is_empty-container_problem name [] = refl
is_empty-container_problem name (c ∷ cs) = ground (arith, is_empty-container_problem name cs)

is_empty-append :
    (xs ys : List (String × Problem)) → is_empty (xs ++ ys) ≡ (is_empty xs && is_empty ys)
is_empty-append [] ys = refl
is_empty-append (x ∷ xs) ys = refl

is_empty-pod_problems :
    (phases : List String) (name : String) (pod : PodInstance)
    → is_empty (pod_problems phases name pod) ≡ is_running phases pod
unfolding pod_problems
is_empty-pod_problems phases name pod = ground (
  arith,
  is_empty-container_problem name pod.containers,
  is_empty-append (container_problem name pod.containers) (
      if pod.deletion_timestamp || not (has phases pod.phase)
      then (name, Problem.phase pod.phase) ∷ []
      else []),
)

-- The pods in front of the first one that has disappeared.
abbrev pub readable : List Pod → List PodInstance
readable [] = []
readable (pod ∷ pods) =
    let rest = readable pods in elim pod.instance_ [ none ↦ [] | some found ↦ found ∷ rest ]

-- The list is empty exactly if every pod is running that is listed in front of the first pod which
-- has disappeared; the pods behind that one are not looked at.
pub is_empty-get_not_running_pods :
    (phases : List String) (pods : List Pod)
    → is_empty (get_not_running_pods phases pods) ≡ all (is_running phases) (readable pods)
unfolding get_not_running_pods
is_empty-get_not_running_pods phases [] = refl
is_empty-get_not_running_pods phases (pod ∷ pods) = elim (Option-cases pod.instance_) [
  | inl e ↦ rw (e, get_not_running_pods, readable)
  | inr (found, e) ↦
      rw (e, get_not_running_pods, readable)
        (ground (
          arith,
          is_empty-get_not_running_pods phases pods,
          is_empty-pod_problems phases pod.name found,
          is_empty-append (pod_problems phases pod.name found) (get_not_running_pods phases pods),
        ))
]
