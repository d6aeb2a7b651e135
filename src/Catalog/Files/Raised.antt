-- ===== src/Catalog/Files/Raised.antt =====
-- When the check of the files raises.
use opendatahub_tests.Shared.{
  ℕ, ◌-◌, String, ◌≡◌, refl, Bool, true, false, ◌&&◌, ◌||◌, not, Option, none, some, List, [], ◌∷◌,
  ◌==◌, if◌then◌else◌, has, keep, join, any, length, ltb, arith, eq_iff, Option-cases, Bool-cases,
  inl, inr,
}
use opendatahub_tests.Catalog.Files.{
  remove_file, all_files, required_files, without_evaluations, without_performance, narrow, Results,
  check_listing, check_models, check_provider, check_providers,
}

abbrev pub raised {ℓ} : {A : Type ℓ} → Option A → Bool
raised none = true
raised (some a) = false

abbrev pub count : String → List String → ℕ
count name names = length (keep (λ n. n == name) names)

remove_file-none :
    (file : String) (files : List String)
    → raised (remove_file file files) ≡ not (ltb 0 (count file files))
unfolding remove_file
remove_file-none file [] = refl
remove_file-none file (f ∷ files) = ground (arith, remove_file-none file files)

count-remove_file :
    (file other : String) (files left : List String)
    → remove_file file files ≡ some left
    → count other left ≡ (if file == other then count other files - 1 else count other files)
unfolding remove_file
count-remove_file file other [] left h = ground arith
count-remove_file file other (f ∷ files) left h = elim (Bool-cases (f == file)) [
  | inl e ↦ ground (arith, eq_iff f file, eq_iff file other, eq_iff f other)
  | inr e ↦ elim (Option-cases (remove_file file files)) [
    | inl gone ↦ ground arith
    | inr (rest, found) ↦ ground (
      arith,
      count-remove_file file other files rest found,
      remove_file-none file files,
      eq_iff f file,
      eq_iff file other,
      eq_iff f other,
    )
  ]
]

-- More models ask for a file to be taken off than the list has of it.
abbrev exhausted : List String → List String → Bool
exhausted required models =
    ltb (count "evaluations.ndjson" required) (count without_evaluations models)
    || ltb (count "performance.ndjson" required) (count without_performance models)

names_differ :
    (model : String)
    → ((model == without_evaluations && model == without_performance) ≡ false)
      × ((model == "provider.json" && model == without_evaluations) ≡ false)
      × ((model == "provider.json" && model == without_performance) ≡ false)
names_differ model =
    let e = eq_iff model without_evaluations in
    let p = eq_iff model without_performance in
    let j = eq_iff model "provider.json" in
    (
      ground (arith, e, p, eq_iff without_evaluations without_performance),
      ground (arith, e, j, eq_iff "provider.json" without_evaluations),
      ground (arith, p, j, eq_iff "provider.json" without_performance),
    )

narrow_step :
    (model : String) (required models : List String)
    → (model == "provider.json") ≡ false
    → exhausted required (model ∷ models) ≡ elim (narrow model required) as (λ o. Bool) [
      | none ↦ true
      | some left ↦ exhausted left models
    ]
unfolding narrow
narrow_step model required models h = elim (Bool-cases (model == without_evaluations)) [
  | inl e ↦ elim (Option-cases (remove_file "evaluations.ndjson" required)) [
    | inl gone ↦
        rw (e, gone)
          (ground (arith, remove_file-none "evaluations.ndjson" required, names_differ model))
    | inr (left, found) ↦
        rw (e, found)
          (ground (
            arith,
            remove_file-none "evaluations.ndjson" required,
            count-remove_file "evaluations.ndjson" "evaluations.ndjson" required left found,
            count-remove_file "evaluations.ndjson" "performance.ndjson" required left found,
            names_differ model,
          ))
  ]
  | inr e ↦ elim (Bool-cases (model == without_performance)) [
    | inr p ↦ rw (e, p) refl
    | inl p ↦ elim (Option-cases (remove_file "performance.ndjson" required)) [
      | inl gone ↦ rw (e, p, gone) (ground (arith, remove_file-none "performance.ndjson" required))
      | inr (left, found) ↦
          rw (e, p, found)
            (ground (
              arith,
              remove_file-none "performance.ndjson" required,
              count-remove_file "performance.ndjson" "evaluations.ndjson" required left found,
              count-remove_file "performance.ndjson" "performance.ndjson" required left found,
            ))
    ]
  ]
]

module _ (listing : String → String → String) where
  raised-check_models :
      (provider : String) (models required : List String) (results : Results)
      → raised (check_models listing provider models required results) ≡ exhausted required models
  unfolding check_models
  raised-check_models provider [] required results = ground arith
  raised-check_models provider (model ∷ models) required results =
      elim (Bool-cases (model == "provider.json")) [
        | inl e ↦
            ground (arith, raised-check_models provider models required results, names_differ model)
        | inr e ↦ elim (Option-cases (narrow model required)) [
          | inl gone ↦ ground (arith, narrow_step model required models e)
          | inr (left, found) ↦ ground (
            arith,
            narrow_step model required models e,
            raised-check_models provider models left (
                check_listing (join provider (join "/" model)) (listing provider model) left
                  results),
          )
        ]
      ]

  -- A provider's models on which the check raises: the model without evaluations listed twice, or
  -- the model without performance data twice for the provider that must have it, and once for
  -- every other provider.
  abbrev pub overdrawn : String × List String → Bool
  overdrawn (provider, models) =
      ltb 1 (count without_evaluations models)
      || ltb (if provider == "RedHatAI" then 1 else 0) (count without_performance models)

  abbrev pub is_checked : String × List String → Bool
  is_checked (provider, models) =
      not (has ("manifest.json" ∷ "variant-groups.ndjson" ∷ []) provider)

  raised-check_provider :
      (provider : String) (models : List String) (results : Results)
      → raised (check_provider listing provider models results) ≡ overdrawn (provider, models)
  unfolding check_provider required_files remove_file
  raised-check_provider provider models results = elim (Bool-cases (provider == "RedHatAI")) [
    | inl e ↦ ground (arith, raised-check_models provider models all_files results)
    | inr e ↦ ground (
      arith,
      raised-check_models provider models ("metadata.json" ∷ "evaluations.ndjson" ∷ []) results,
    )
  ]

  -- The check of the files raises a ValueError exactly if some provider's directory lists more of
  -- the two excepted models than the provider's list has files to take off: in particular if a
  -- provider other than RedHatAI lists the model without performance data.
  pub raised-check_providers :
      (providers : List (String × List String)) (results : Results)
      → raised (check_providers listing providers results)
        ≡ any (λ p. is_checked p && overdrawn p) providers
  unfolding check_providers
  raised-check_providers [] results = refl
  raised-check_providers ((provider, models) ∷ providers) results =
      elim (Option-cases (check_provider listing provider models results)) [
        | inl gone ↦ ground (
          arith,
          raised-check_provider provider models results,
          raised-check_providers providers results,
        )
        | inr (checked, found) ↦ ground (
          arith,
          raised-check_provider provider models results,
          raised-check_providers providers results,
          raised-check_providers providers checked,
        )
      ]
