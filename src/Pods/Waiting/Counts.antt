-- ===== src/Pods/Waiting/Counts.antt =====
-- Waiting for a count.
use opendatahub_tests.Shared.{
  ℕ, ◌+◌, ◌<◌, String, ◌≡◌, refl, Bool, false, Option, none, some, List, [], ◌∷◌, arith,
  if◌then◌else◌, leb, nat_eq, length, keep, first, ◌==◌, Bool-cases, inl, inr, nat_eq_iff, true,
}
use opendatahub_tests.Pods.Waiting.{
  count_route, wait_for_route_timeout, Deployments, found, failed_call, unexpected_count,
  wait_count, wait_for_deployments,
}

abbrev pub annotated : String → Option String → Bool
annotated route_timeout none = false
annotated route_timeout (some value) = value == route_timeout

count_route-eq :
    (n : ℕ) (route_timeout : String) (samples : List (Option String))
    → n < 2
    → count_route n route_timeout samples
      ≡ leb 2 (n + length (keep (annotated route_timeout) samples))
unfolding count_route
count_route-eq n route_timeout [] h = ground arith
count_route-eq n route_timeout (none ∷ samples) h = count_route-eq n route_timeout samples h
count_route-eq n route_timeout (some value ∷ samples) h =
    ground (
      arith,
      count_route-eq n route_timeout samples h,
      count_route-eq (n + 1) route_timeout samples,
    )

-- The wait for a route succeeds exactly if the annotation has been seen in two samples, which need
-- not follow one another.
pub wait_for_route_timeout-eq :
    (route_timeout : String) (samples : List (Option String))
    → wait_for_route_timeout route_timeout samples
      ≡ leb 2 (length (keep (annotated route_timeout) samples))
unfolding wait_for_route_timeout
wait_for_route_timeout-eq route_timeout samples =
    ground (arith, count_route-eq 0 route_timeout samples)

module _ {D : Type 0} (expected : ℕ) where
  -- The first list of the expected length.
  abbrev pub first_complete : List (List D) → Option (List D)
  first_complete samples = first (λ deployments. nat_eq (length deployments) expected) samples

  abbrev pub last_length : ℕ → List (List D) → ℕ
  last_length seen [] = seen
  last_length seen (deployments ∷ samples) = last_length (length deployments) samples

  wait_count-eq :
      (last_exp : Bool) (seen : ℕ) (samples : List (List D))
      → wait_count expected last_exp seen samples
        ≡ elim (first_complete samples) as (λ o. Deployments D) [
          | some deployments ↦ found deployments
          | none ↦ if last_exp then failed_call else unexpected_count (last_length seen samples)
        ]
  unfolding wait_count
  wait_count-eq last_exp seen [] = refl
  wait_count-eq last_exp seen (deployments ∷ samples) =
      ground (arith, wait_count-eq last_exp (length deployments) samples)

  -- The first list with the expected number of deployments is returned. If there is none the wait
  -- fails: with the sampler's error if this carries an exception, and otherwise with the number of
  -- deployments that the last list had, 0 if there was no list.
  pub wait_for_deployments-eq :
      (last_exp : Bool) (samples : List (List D))
      → wait_for_deployments expected last_exp samples
        ≡ elim (first_complete samples) as (λ o. Deployments D) [
          | some deployments ↦ found deployments
          | none ↦ if last_exp then failed_call else unexpected_count (last_length 0 samples)
        ]
  unfolding wait_for_deployments
  wait_for_deployments-eq last_exp samples = wait_count-eq last_exp 0 samples

count-found {ℓ} :
    {D : Type ℓ} (expected n : ℕ) (last_exp : Bool) (samples : List (List D)) (ds : List D)
    → wait_count expected last_exp n samples ≡ found ds
    → length ds ≡ expected
unfolding wait_count
count-found expected n true [] ds h = ground (arith, h)
count-found expected n false [] ds h = ground (arith, h)
count-found expected n last_exp (s ∷ samples) ds h =
    elim (Bool-cases (nat_eq (length s) expected)) [
      | inl e ↦ ground (arith, e, h, (nat_eq_iff (length s) expected).0 e)
      | inr e ↦ count-found expected (length s) last_exp samples ds (ground (arith, e, h))
    ]

-- What is found has the number that was expected.
pub wait_for_deployments-found {ℓ} :
    {D : Type ℓ} (expected : ℕ) (last_exp : Bool) (samples : List (List D)) (ds : List D)
    → wait_for_deployments expected last_exp samples ≡ found ds
    → length ds ≡ expected
unfolding wait_for_deployments
wait_for_deployments-found expected last_exp samples ds h =
    count-found expected 0 last_exp samples ds h
