-- ===== src/Serving/Exposure/Created.antt =====
-- A created service is reached the way it was created.
use opendatahub_tests.Shared.{
  String, ◌≡◌, refl, sym, ◌∙◌, true, false, ◌&&◌, not, Option, none, some, List, ◌==◌,
  if◌then◌else◌, put, lookup, lookup-put, arith, inl, inr, Bool-cases, eq_iff,
}
use mathlib.Core.Bool.{false≢true}
use opendatahub_tests.Serving.Modes.{
  serverless, raw_deployment_modes, networking_kserve_io, networking_knative_io, exposed, ok,
  is_mode, in_modes, is_kserve,
}
use opendatahub_tests.Serving.Spec.{
  Arguments, Manifest, create_manifest, create_labels, given_labels, effective_route, is_true,
  is_false, text_if,
}
use opendatahub_tests.Serving.Spec.Predictor.{create_manifest-annotations}
use opendatahub_tests.Serving.Exposure.{service, Deployed, get_deployment_type, is_service_exposed}

-- The service as the cluster then holds it, with a mode in its status and its runtime's annotations.
abbrev pub deploy : {A : Type 0} → Manifest A → Option String → List (String × String) → Deployed
deploy m status_mode runtime = record {
  kind = service status_mode runtime;
  annotations = m.annotations;
  labels = m.labels;
}

text_if-kserve : (mode : Option String) → is_kserve mode ≡ true → text_if mode ≡ mode
text_if-kserve none h = refl
text_if-kserve (some mode) h = elim (Bool-cases (mode == "")) [
  | inl e ↦
      let empty = (eq_iff mode "").0 e in
      let off : is_kserve (some mode) ≡ false = rw empty in absurd (false≢true (sym off ∙ h))
  | inr e ↦ rw e
]

raw_not_serverless :
    (mode : Option String)
    → in_modes mode raw_deployment_modes ≡ true
    → is_mode mode serverless ≡ false
raw_not_serverless none h = refl
raw_not_serverless (some mode) h = elim (Bool-cases (mode == serverless)) [
  | inl e ↦
      let same = (eq_iff mode serverless).0 e in
      let off : in_modes (some mode) raw_deployment_modes ≡ false = rw same in
      absurd (false≢true (sym off ∙ h))
  | inr e ↦ e
]

module _ {A : Type 0} (a : Arguments A) where
  lookup-create_labels :
      (lookup networking_kserve_io (create_labels a) ≡ (
        if is_true (effective_route a) && in_modes a.deployment_mode raw_deployment_modes
        then some exposed
        else lookup networking_kserve_io (given_labels a)))
      × (lookup networking_knative_io (create_labels a) ≡ (
          if is_mode a.deployment_mode serverless && is_false (effective_route a)
          then some "cluster-local"
          else lookup networking_knative_io (given_labels a)))
  unfolding create_labels
  lookup-create_labels =
      let labels = given_labels a in
      let shown = put networking_kserve_io exposed labels in
      (
        ground (
          arith,
          lookup-put networking_kserve_io networking_kserve_io exposed labels,
          lookup-put networking_knative_io networking_kserve_io "cluster-local" labels,
          lookup-put networking_knative_io networking_kserve_io "cluster-local" shown,
        ),
        ground (
          arith,
          lookup-put networking_kserve_io networking_knative_io exposed labels,
          lookup-put networking_knative_io networking_knative_io "cluster-local" labels,
          lookup-put networking_knative_io networking_knative_io "cluster-local" shown,
        ),
      )

  created_labels : {m : Manifest A} → create_manifest a ≡ ok m → m.labels ≡ create_labels a
  unfolding create_manifest
  created_labels h = ground arith

  get_deployment_type-deploy :
      {m : Manifest A} (status_mode : Option String) (runtime : List (String × String))
      → create_manifest a ≡ ok m
      → is_kserve a.deployment_mode ≡ true
      → get_deployment_type (deploy m status_mode runtime) ≡ a.deployment_mode
  unfolding get_deployment_type
  get_deployment_type-deploy status_mode runtime h kserve =
      ground (arith, create_manifest-annotations a h, text_if-kserve a.deployment_mode kserve)

  -- A serverless or raw service that is created without visibility labels of its own is found
  -- exposed exactly as asked: a serverless one unless its route was refused, a raw one if its
  -- route was requested; whatever mode the cluster's status reports.
  pub is_service_exposed-deploy :
      {m : Manifest A} (status_mode : Option String) (runtime : List (String × String))
      → create_manifest a ≡ ok m
      → is_kserve a.deployment_mode ≡ true
      → lookup networking_kserve_io (given_labels a) ≡ none
      → lookup networking_knative_io (given_labels a) ≡ none
      → is_service_exposed (deploy m status_mode runtime)
        ≡ ok (
            if is_mode a.deployment_mode serverless
            then not (is_false a.external_route)
            else is_true a.external_route)
  unfolding is_service_exposed effective_route
  is_service_exposed-deploy {m} status_mode runtime h kserve no_kserve no_knative =
      rw
        (
          is_service_exposed,
          get_deployment_type-deploy status_mode runtime h kserve,
          created_labels h,
          lookup-create_labels.0,
          lookup-create_labels.1,
          no_kserve,
          no_knative,
        )
        (ground (arith, raw_not_serverless a.deployment_mode))
