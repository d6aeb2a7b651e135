-- ===== src/Pods/Failures/Judged.antt =====
-- What the verification of the pods has seen.
use opendatahub_tests.Shared.{
  String, ◌≡◌, refl, Bool, ◌&&◌, ◌||◌, not, Option, none, some, List, [], ◌∷◌, arith, if◌then◌else◌,
  any, all, nat_eq, length, keep, is_empty, map, length-keep-le,
}
use opendatahub_tests.Pods.Failures.{
  States, PodStatus, pod_failed, pod_ready, Verdict, ready, failed_pods, expired, judge,
  verify_no_failed_pods,
}

all-length-keep :
    (p : PodStatus → Bool) (pods : List PodStatus)
    → nat_eq (length (keep p pods)) (length pods) ≡ all p pods
all-length-keep p [] = refl
all-length-keep p (pod ∷ pods) = ground (arith, all-length-keep p pods, length-keep-le p pods)

is_empty-map-keep :
    (p : PodStatus → Bool) (pods : List PodStatus)
    → is_empty (map (λ (q : PodStatus). q.name) (keep p pods)) ≡ not (any p pods)
is_empty-map-keep p [] = refl
is_empty-map-keep p (pod ∷ pods) = ground (arith, is_empty-map-keep p pods)

module _ (s : States) (mode : Option String) where
  abbrev pub is_good : List PodStatus → Bool
  is_good pods = not (is_empty pods) && not (any (pod_failed s mode) pods) && all (pod_ready s) pods

  abbrev pub is_bad : List PodStatus → Bool
  is_bad pods = any (pod_failed s mode) pods

  judge-eq :
      (pods : List PodStatus)
      → judge s mode pods ≡ (
          if is_bad pods
          then some (failed_pods (map (λ (q : PodStatus). q.name) (keep (pod_failed s mode) pods)))
          else if is_good pods
          then some ready
          else none)
  unfolding judge
  judge-eq [] = refl
  judge-eq (pod ∷ pods) = ground (
    arith,
    is_empty-map-keep (pod_failed s mode) (pod ∷ pods),
    all-length-keep (pod_ready s) (pod ∷ pods),
  )

  -- The first sample that decides: one with a failed pod, or one whose pods are all ready.
  abbrev pub first_decided : List (List PodStatus) → Option (List PodStatus)
  first_decided [] = none
  first_decided (pods ∷ samples) =
      if is_bad pods || is_good pods then some pods else first_decided samples

  -- The verdict is that of the first sample with a failed pod or with pods that are all ready: in
  -- the first case the names of the failed pods. Without such a sample the time runs out.
  pub verify_no_failed_pods-eq :
      (samples : List (List PodStatus))
      → verify_no_failed_pods s mode samples ≡ elim (first_decided samples) as (λ o. Verdict) [
        | none ↦ expired
        | some pods ↦
            if is_bad pods
            then failed_pods (map (λ (q : PodStatus). q.name) (keep (pod_failed s mode) pods))
            else ready
      ]
  unfolding verify_no_failed_pods
  verify_no_failed_pods-eq [] = refl
  verify_no_failed_pods-eq (pods ∷ samples) =
      ground (arith, judge-eq pods, verify_no_failed_pods-eq samples)
