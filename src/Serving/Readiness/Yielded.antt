-- ===== src/Serving/Readiness/Yielded.antt =====
-- When a created service is handed to the test.
use opendatahub_tests.Shared.{
  ◌≡◌, refl, Bool, true, false, ◌&&◌, ◌||◌, not, Option, none, some, List, [], ◌∷◌, any, all, ◌↔◌,
  arith, String, if◌then◌else◌, Bool-cases, inl, inr,
}
use opendatahub_tests.Serving.Modes.{model_mesh, is_mode}
use opendatahub_tests.Serving.Readiness.{
  ModelStatus, Neighbour, Request, Seen, yielded, clean_up, deploy, is_other_mesh, recreate,
  wait_service, is_model_loaded, wait_loaded, check_model_status, wait_model, wait_ready,
  after_creation,
}

abbrev pub reported : Option ModelStatus → Bool
reported none = false
reported (some status) = true

wait_loaded-any :
    (samples : List (Option ModelStatus)) → wait_loaded samples ≡ any is_model_loaded samples
unfolding wait_loaded
wait_loaded-any [] = refl
wait_loaded-any (sample ∷ samples) = ground (arith, wait_loaded-any samples)

-- The pods were good and the replicas there.
abbrev pub pods_passed : Seen → Bool
pods_passed seen = seen.pods_good && seen.replicas_there

-- The service was ready; if it reported a model status then, a sample showed the model loaded; if
-- it reported one at the end, that showed it loaded too.
abbrev pub model_passed : Seen → Bool
model_passed seen =
    seen.ready
    && (not (reported seen.initial_status) || any is_model_loaded seen.samples)
    && (not (reported seen.model_status) || is_model_loaded seen.model_status)

-- The services up to the first other one of Model Mesh, that one included.
abbrev pub up_to_other_mesh : String → List Neighbour → List Neighbour
up_to_other_mesh runtime [] = []
up_to_other_mesh runtime (n ∷ neighbours) =
    n ∷ (if is_other_mesh runtime n then [] else up_to_other_mesh runtime neighbours)

-- A service of Model Mesh passes the loop if the runtimes exist that the loop looks at.
abbrev pub neighbours_passed : Request → Seen → Bool
neighbours_passed r seen =
    not (is_mode r.deployment_mode model_mesh)
    || all (λ (n : Neighbour). n.runtime_exists) (up_to_other_mesh r.runtime seen.neighbours)

recreate-eq :
    (runtime : String) (neighbours : List Neighbour)
    → recreate runtime neighbours ≡ (
        if all (λ (n : Neighbour). n.runtime_exists) (up_to_other_mesh runtime neighbours)
        then some (if any (is_other_mesh runtime) neighbours then clean_up ∷ deploy ∷ [] else [])
        else none)
unfolding recreate
recreate-eq runtime [] = refl
recreate-eq runtime (n ∷ neighbours) = elim (Bool-cases (is_other_mesh runtime n)) [
  | inl e ↦ rw e (ground arith)
  | inr e ↦ rw e (ground (arith, recreate-eq runtime neighbours))
]

wait_ready-yielded : (seen : Seen) → (wait_ready seen ≡ yielded) ↔ (model_passed seen ≡ true)
unfolding wait_ready wait_model check_model_status is_model_loaded
wait_ready-yielded seen =
    (ground (arith, wait_loaded-any seen.samples), ground (arith, wait_loaded-any seen.samples))

wait_service-yielded :
    (r : Request) (seen : Seen)
    → ((wait_service r seen).1 ≡ yielded)
      ↔ ((r.stop_resume || (not r.wait || (neighbours_passed r seen && model_passed seen))) ≡ true)
unfolding wait_service
wait_service-yielded r seen =
    let found = recreate-eq r.runtime seen.neighbours in
    let ready = wait_ready-yielded seen in
    (ground (arith, found, ready.0), ground (arith, found, ready.1))

calls-wait_service :
    (r : Request) (seen : Seen)
    → (wait_service r seen).0 ≡ (
        if not r.stop_resume
          && r.wait
          && is_mode r.deployment_mode model_mesh
          && neighbours_passed r seen
          && any (is_other_mesh r.runtime) seen.neighbours
        then clean_up ∷ deploy ∷ []
        else [])
unfolding wait_service
calls-wait_service r seen = ground (arith, recreate-eq r.runtime seen.neighbours)

-- The service is handed to the test exactly if it was asked to stop, or passed the waits that were
-- asked for: its pods good with their replicas; of Model Mesh, the runtimes there of the services up to
-- the first other one of Model Mesh; and itself ready with its model loaded, both in a sample and at
-- the end, wherever it reports a model status. It is taken down and deployed again, once, exactly if it
-- is one of Model Mesh that is waited for and gets that far, and such another one is there.
pub after_creation-yielded :
    (r : Request) (seen : Seen)
    → ((after_creation r seen).1 ≡ yielded ↔ (
        (r.stop_resume
          || ((not r.wait_for_predictor_pods || pods_passed seen)
              && (not r.wait || (neighbours_passed r seen && model_passed seen))))
        ≡ true))
      × ((after_creation r seen).0 ≡ (
          if not r.stop_resume
            && (not r.wait_for_predictor_pods || pods_passed seen)
            && r.wait
            && is_mode r.deployment_mode model_mesh
            && neighbours_passed r seen
            && any (is_other_mesh r.runtime) seen.neighbours
          then clean_up ∷ deploy ∷ []
          else []))
unfolding after_creation
after_creation-yielded r seen =
    let service = wait_service-yielded r seen in
    let calls = calls-wait_service r seen in
    ((ground (arith, service.0), ground (arith, service.1)), ground (arith, calls))
