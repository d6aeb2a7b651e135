-- ===== src/Pods/Deployed/Rollout.antt =====
-- The wait for the roll-out of the authentication server.
use opendatahub_tests.Shared.{
  String, Bool, true, ◌&&◌, some, List, [], ◌∷◌, ◌++◌, ◌==◌, any, ◌≡◌, sym, ap, ◌∙◌, arith,
  Bool-cases, Option-cases, inl, inr, ◌↔◌,
}
use mathlib.Core.List.{append_assoc}
use opendatahub_tests.Pods.Deployed.{Condition, wait_sampler, wait_for_oauth_openshift_deployment}

-- A sample has a condition of progress with the reason.
abbrev pub shows : String → List Condition → Bool
shows reason sample = any (λ (c : Condition). c.0 == "Progressing" && c.1 == reason) sample

-- The first sample that shows the reason stands somewhere, and what is left is all that follows it.
wait_sampler-split :
    (reason : String) (samples rest : List (List Condition))
    → wait_sampler reason samples ≡ some rest
    → (before : List (List Condition)) × (sample : List Condition) × (samples
        ≡ before ++ (sample ∷ rest))
      × (shows reason sample ≡ true)
unfolding wait_sampler
wait_sampler-split reason [] rest h = ground (arith, h)
wait_sampler-split reason (s ∷ samples) rest h = elim (Bool-cases (shows reason s)) [
  | inl e ↦ ([], s, ground (arith, e, h), e)
  | inr e ↦
      let (before, sample, same, shown) =
        wait_sampler-split reason samples rest (ground (arith, e, h)) in
      (s ∷ before, sample, ap (λ r. s ∷ r) same, shown)
]

-- Where a sample shows the reason, the wait ends, and leaves at least what follows that sample.
wait_sampler-ends :
    (reason : String) (before : List (List Condition)) (sample : List Condition)
    (after : List (List Condition))
    → shows reason sample ≡ true
    → (more : List (List Condition)) × (wait_sampler reason (before ++ (sample ∷ after))
        ≡ some (more ++ after))
unfolding wait_sampler
wait_sampler-ends reason [] sample after shown = ([], ground (arith, shown))
wait_sampler-ends reason (s ∷ before) sample after shown = elim (Bool-cases (shows reason s)) [
  | inl e ↦
      (before ++ (sample ∷ []), rw (append_assoc before (sample ∷ []) after) (ground (arith, e)))
  | inr e ↦
      let (more, found) = wait_sampler-ends reason before sample after shown in
      (more, ground (arith, e, found))
]

-- The samples behind which a wait that ended in time found what it waits for, in turn.
wait_for_oauth_openshift_deployment-split :
    (samples : List (List Condition))
    → wait_for_oauth_openshift_deployment samples ≡ true
    → (before between after : List (List Condition)) × (updated available : List Condition)
      × (samples ≡ before ++ (updated ∷ (between ++ (available ∷ after))))
      × (shows "ReplicaSetUpdated" updated ≡ true)
      × (shows "NewReplicaSetAvailable" available ≡ true)
unfolding wait_for_oauth_openshift_deployment
wait_for_oauth_openshift_deployment-split samples h =
    elim (Option-cases (wait_sampler "ReplicaSetUpdated" samples)) [
      | inl e ↦ ground (arith, e, h)
      | inr (rest, e) ↦ elim (Option-cases (wait_sampler "NewReplicaSetAvailable" rest)) [
        | inl f ↦ ground (arith, e, f, h)
        | inr (more, f) ↦
            let (before, updated, same, first) =
              wait_sampler-split "ReplicaSetUpdated" samples rest e in
            let (between, available, again, second) =
              wait_sampler-split "NewReplicaSetAvailable" rest more f in
            (
              before,
              between,
              more,
              updated,
              available,
              same ∙ ap (λ r. before ++ (updated ∷ r)) again,
              first,
              second,
            )
      ]
    ]

wait_for_oauth_openshift_deployment-ends :
    (before between after : List (List Condition)) (updated available : List Condition)
    → shows "ReplicaSetUpdated" updated ≡ true
    → shows "NewReplicaSetAvailable" available ≡ true
    → wait_for_oauth_openshift_deployment (before ++ (updated ∷ (between ++ (available ∷ after))))
      ≡ true
unfolding wait_for_oauth_openshift_deployment
wait_for_oauth_openshift_deployment-ends before between after updated available first second =
    let (skipped, e) =
      wait_sampler-ends "ReplicaSetUpdated" before updated (between ++ (available ∷ after)) first in
    let (more, f) =
      wait_sampler-ends "NewReplicaSetAvailable" (skipped ++ between) available after second in
    let g =
      sym (
        ap (wait_sampler "NewReplicaSetAvailable")
          (append_assoc skipped between (available ∷ after)))
      ∙ f in
    ground (arith, e, g)

-- The wait ends in time exactly if some sample shows that the replica set was updated and a later one,
-- not the same, that the new replica set is available.
pub wait_for_oauth_openshift_deployment_iff :
    (samples : List (List Condition))
    → (wait_for_oauth_openshift_deployment samples ≡ true) ↔ (
        (before between after : List (List Condition)) × (updated available : List Condition)
        × (samples ≡ before ++ (updated ∷ (between ++ (available ∷ after))))
        × (shows "ReplicaSetUpdated" updated ≡ true)
        × (shows "NewReplicaSetAvailable" available ≡ true))
wait_for_oauth_openshift_deployment_iff samples = (
  wait_for_oauth_openshift_deployment-split samples,
  (λ (before, between, after, updated, available, same, first, second).
      ap wait_for_oauth_openshift_deployment same
      ∙ wait_for_oauth_openshift_deployment-ends before between after updated available first
          second),
)
