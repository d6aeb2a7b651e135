-- ===== src/Pods/Deployed/Outcomes.antt =====
-- What the wait for a service's deployments ends with.
use opendatahub_tests.Shared.{
  ℕ, String, Bool, true, false, not, ◌&&◌, ◌||◌, Option, none, some, List, [], ◌∷◌, all, nat_eq,
  length, ◌≡◌, refl, arith, Bool-cases, Option-cases, inl, inr, ◌⊎◌,
}
use opendatahub_tests.Serving.Modes.{in_modes, raw_deployment_modes}
use opendatahub_tests.Pods.Waiting.{
  wait_for_replicas_in_deployment, Deployments, found, failed_call, unexpected_count,
  wait_for_deployments,
}
use opendatahub_tests.Pods.Waiting.Counts.{wait_for_deployments-found}
use opendatahub_tests.Pods.Deployed.{
  Deployment, Waited, deployed, wait_replicas, wait_for_inference_deployment_replicas,
}

-- Some sample of the specification has the number of replicas.
abbrev pub seen : ℕ → List (Option ℕ) → Bool
seen n [] = false
seen n (none ∷ samples) = seen n samples
seen n (some m ∷ samples) = nat_eq m n || seen n samples

wait_for_replicas-seen :
    (n : ℕ) (samples : List (Option ℕ)) → wait_for_replicas_in_deployment n samples ≡ seen n samples
unfolding wait_for_replicas_in_deployment
wait_for_replicas-seen n [] = refl
wait_for_replicas-seen n (none ∷ samples) = wait_for_replicas-seen n samples
wait_for_replicas-seen n (some m ∷ samples) = ground (arith, wait_for_replicas-seen n samples)

-- A deployment that is there, has its replicas and, of a raw service, has had the least number of
-- replicas in its specification.
abbrev pub is_up : Bool → ℕ → Deployment → Bool
is_up raw min_replicas d =
    d.exists && d.replicas_ready && (not raw || seen min_replicas d.replica_samples)

wait_replicas-all :
    (raw : Bool) (n : ℕ) (ds : List Deployment)
    → wait_replicas raw n ds ≡ none
    → all (is_up raw n) ds ≡ true
unfolding wait_replicas
wait_replicas-all raw n [] h = refl
wait_replicas-all raw n (d ∷ ds) h = elim (Bool-cases d.exists) [
  | inr e ↦ ground (arith, e, h)
  | inl e ↦ elim (Bool-cases d.replicas_ready) [
    | inr r ↦ ground (arith, e, r, h, wait_for_replicas-seen n d.replica_samples)
    | inl r ↦
        ground
          (arith, e, r, h, wait_for_replicas-seen n d.replica_samples, wait_replicas-all raw n ds)
  ]
]

abbrev is_deployed : Waited → Bool
is_deployed (deployed ds) = true
is_deployed _ = false

wait_replicas-ends :
    (raw : Bool) (n : ℕ) (ds : List Deployment) (ended : Waited)
    → wait_replicas raw n ds ≡ some ended
    → is_deployed ended ≡ false
unfolding wait_replicas
wait_replicas-ends raw n [] ended h = ground (arith, h)
wait_replicas-ends raw n (d ∷ ds) ended h = elim (Bool-cases d.exists) [
  | inr e ↦ ground (arith, e, h)
  | inl e ↦ elim (Bool-cases (raw && not (wait_for_replicas_in_deployment n d.replica_samples))) [
    | inl w ↦ ground (arith, e, w, h)
    | inr w ↦ elim (Bool-cases d.replicas_ready) [
      | inr r ↦ ground (arith, e, w, r, h)
      | inl r ↦ wait_replicas-ends raw n ds ended (ground (arith, e, w, r, h))
    ]
  ]
]

Deployments-cases {ℓ} :
    {D : Type ℓ} (r : Deployments D)
    → (r ≡ failed_call) ⊎ (((n : ℕ) × (r ≡ unexpected_count n)) ⊎ ((ds : List D) × (r ≡ found ds)))
Deployments-cases (found ds) = inr (inr (ds, refl))
Deployments-cases failed_call = inl refl
Deployments-cases (unexpected_count n) = inr (inl (n, refl))

-- A wait that succeeds returns as many deployments as were expected, and each of them is there, has its
-- replicas and, of a raw service, has had the predictor's least number of replicas, 1 if none is given,
-- in its specification.
pub wait_for_inference_deployment_replicas-deployed :
    (mode : Option String) (min_replicas : Option ℕ) (expected : ℕ) (last_exp : Bool)
    (samples : List (List Deployment)) (ds : List Deployment)
    → wait_for_inference_deployment_replicas mode min_replicas expected last_exp samples
      ≡ deployed ds
    → let least = elim min_replicas as (λ _. ℕ) [ none ↦ 1 | some n ↦ n ] in
      (length ds ≡ expected) × (all (is_up (in_modes mode raw_deployment_modes) least) ds ≡ true)
unfolding wait_for_inference_deployment_replicas
wait_for_inference_deployment_replicas-deployed mode min_replicas expected last_exp samples ds h =
    let raw = in_modes mode raw_deployment_modes in
    let least : ℕ = elim min_replicas [ none ↦ 1 | some n ↦ n ] in
    elim (Deployments-cases (wait_for_deployments expected last_exp samples)) [
      | inl e ↦ ground (arith, e, h)
      | inr (inl (n, e)) ↦ ground (arith, e, h)
      | inr (inr (got, e)) ↦ elim (Option-cases (wait_replicas raw least got)) [
        | inr (ended, f) ↦ ground (arith, e, h, f, wait_replicas-ends raw least got ended f)
        | inl f ↦
            let same : got ≡ ds = ground (arith, e, h, f) in
            rw⁻¹ same (
              wait_for_deployments-found expected last_exp samples got e,
              wait_replicas-all raw least got f,
            )
      ]
    ]
