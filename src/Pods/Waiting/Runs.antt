-- ===== src/Pods/Waiting/Runs.antt =====
-- Waiting for consecutive good samples.
use opendatahub_tests.Shared.{
  ℕ, suc, zero, ◌+◌, ◌≤◌, ◌≡◌, refl, Bool, true, false, ◌&&◌, ◌||◌, not, List, [], ◌∷◌, arith,
  if◌then◌else◌,
}
use opendatahub_tests.Pods.Waiting.{
  running, expired, unknown, at_timeout, check_samples, wait_for_pods_running,
}

-- The list starts with `n` good samples.
abbrev pub leads : ℕ → List Bool → Bool
leads zero samples = true
leads (suc n) [] = false
leads (suc n) (bad ∷ samples) = not bad && leads n samples

-- Somewhere `n` good samples follow one another.
abbrev pub has_run : ℕ → List Bool → Bool
has_run n [] = leads n []
has_run n (bad ∷ samples) = leads n (bad ∷ samples) || has_run n samples

leads_mono :
    (m n : ℕ) (samples : List Bool) → m ≤ n → leads n samples ≡ true → leads m samples ≡ true
leads_mono zero n samples le h = refl
leads_mono (suc m) zero samples le h = absurd (omega arith)
leads_mono (suc m) (suc n) [] le h = h
leads_mono (suc m) (suc n) (bad ∷ samples) le h = ground (arith, leads_mono m n samples)

leads-has_run : (n : ℕ) (samples : List Bool) → leads n samples ≡ true → has_run n samples ≡ true
leads-has_run n [] h = h
leads-has_run n (bad ∷ samples) h = rw h

-- The sample of a list that comes last, or the one before.
abbrev pub last_of : Bool → List Bool → Bool
last_of last_sample [] = last_sample
last_of last_sample (bad ∷ samples) = last_of bad samples

-- With `k + 1` good samples still to come, of `n + 1` in all.
check_samples-eq :
    (n current k : ℕ) (last_sample : Bool) (samples : List Bool)
    → n ≡ current + k
    → check_samples (suc n) current last_sample samples ≡ (
        if leads (suc k) samples || has_run (suc n) samples
        then running
        else at_timeout (last_of last_sample samples))
unfolding check_samples
check_samples-eq n current k last_sample [] e = refl
check_samples-eq n current k last_sample (true ∷ samples) e =
    ground (arith, check_samples-eq n 0 n true samples (omega arith), leads-has_run (suc n) samples)
check_samples-eq n current zero last_sample (false ∷ samples) e = ground arith
check_samples-eq n current (suc k) last_sample (false ∷ samples) e =
    let shorter : leads n samples ≡ true → leads (suc k) samples ≡ true =
      leads_mono (suc k) n samples (omega arith) in
    ground (arith, check_samples-eq n (current + 1) k false samples (omega arith), shorter)

-- The wait ends with "running" exactly if as many consecutive samples as asked for, at least one, are free of pods
-- that are not running. Otherwise the time runs out, and this is an error only if the last sample
-- was bad: after a good one, or with no sample at all, the function returns without a result.
pub wait_for_pods_running-eq :
    (n : ℕ) (samples : List Bool)
    → wait_for_pods_running (suc n) samples ≡ (
        if has_run (suc n) samples
        then running
        else if last_of false samples
        then expired
        else unknown)
unfolding wait_for_pods_running at_timeout
wait_for_pods_running-eq n samples =
    ground
      (arith, check_samples-eq n 0 n false samples (omega arith), leads-has_run (suc n) samples)
