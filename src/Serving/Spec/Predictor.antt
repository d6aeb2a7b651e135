-- ===== src/Serving/Spec/Predictor.antt =====
-- What a created service carries: its storage, its replicas, its annotations.
use opendatahub_tests.Shared.{
  String, ◌≡◌, sym, true, false, ◌&&◌, ◌||◌, not, none, some, if◌then◌else◌, given, lookup, arith,
  ◌⊎◌, inl, inr, Bool-cases, Option-cases,
}
use mathlib.Core.Path.{subst}
use opendatahub_tests.Serving.Modes.{
  deployment_mode_annotation, force_stop_annotation, security_annotation, ok, is_kserve,
}
use opendatahub_tests.Serving.Storage.{check_storage_arguments}
use opendatahub_tests.Serving.Spec.{
  Arguments, Manifest, Model, text_if, check_given_storage, create_manifest, create_model,
  create_predictor, create_annotations, storage_of,
}

module _ {A : Type 0} (a : Arguments A) where
  created :
      {m : Manifest A}
      → create_manifest a ≡ ok m
      → (check_given_storage a ≡ ok tt)
        × (m.predictor ≡ create_predictor a)
        × (m.annotations ≡ create_annotations a)
  unfolding create_manifest
  created h = ground arith

  -- The three ways in which storage can be given, with what the model then carries.
  abbrev pub StorageOf : Model A → Type 0
  StorageOf model =
      ((given a.storage_uri ≡ false)
        × (given a.storage_key ≡ false)
        × (given a.storage_path ≡ false)
        × (model.storage_uri ≡ none)
        × (model.storage ≡ none))
      ⊎ ((given a.storage_uri ≡ true)
          × (given a.storage_key ≡ false)
          × (given a.storage_path ≡ false)
          × (model.storage_uri ≡ a.storage_uri)
          × (model.storage ≡ none))
      ⊎ ((given a.storage_uri ≡ false)
          × (given a.storage_key ≡ true)
          × (given a.storage_path ≡ true)
          × (model.storage_uri ≡ none)
          × ((key : String) × (a.storage_key ≡ some key)
              × (model.storage ≡ some (key, a.storage_path))))

  storage_of-key :
      given a.storage_uri ≡ false
      → given a.storage_key ≡ true
      → (key : String) × (a.storage_key ≡ some key) × (storage_of a ≡ some (key, a.storage_path))
  unfolding storage_of
  storage_of-key u k = elim (Option-cases a.storage_key) [
    | inl e ↦ ground arith
    | inr (key, e) ↦ (key, e, ground arith)
  ]

  storage_of-none : (given a.storage_uri || not (given a.storage_key)) ≡ true → storage_of a ≡ none
  unfolding storage_of
  storage_of-none h = ground arith

  accepted_storage : check_given_storage a ≡ ok tt → StorageOf (create_model a)
  unfolding check_given_storage check_storage_arguments create_model
  accepted_storage h = elim (Bool-cases (given a.storage_uri)) [
    | inl u ↦
        inr (inl (u, ground arith, ground arith, ground arith, storage_of-none (ground arith)))
    | inr u ↦ elim (Bool-cases (given a.storage_key)) [
      | inl k ↦ inr (inr (u, k, ground arith, ground arith, storage_of-key u k))
      | inr k ↦ inl (u, k, ground arith, ground arith, storage_of-none (ground arith))
    ]
  ]

  -- A service that is created has no storage, if no storage argument is given, or just one: the
  -- URI, or the key with its path.
  pub create_manifest-StorageOf :
      {m : Manifest A} → create_manifest a ≡ ok m → StorageOf m.predictor.model
  unfolding create_predictor
  create_manifest-StorageOf {m} h =
      let (accepted, same, _) = created h in
      subst (λ p. StorageOf p.model) (sym same) (accepted_storage accepted)

  -- The replicas of a created service are the ones asked for, 0 included.
  pub create_manifest-replicas :
      {m : Manifest A}
      → create_manifest a ≡ ok m
      → (m.predictor.min_replicas ≡ a.min_replicas) × (m.predictor.max_replicas ≡ a.max_replicas)
  unfolding create_manifest create_predictor
  create_manifest-replicas h = ground arith

  lookup-annotations :
      (lookup deployment_mode_annotation (create_annotations a) ≡ text_if a.deployment_mode)
      × (lookup security_annotation (create_annotations a)
          ≡ (if a.enable_auth && is_kserve a.deployment_mode then some "true" else none))
      × (lookup force_stop_annotation (create_annotations a)
          ≡ (if a.stop_resume then some "True" else none))
  unfolding create_annotations
  lookup-annotations = (ground arith, ground arith, ground arith)

  -- The annotations of a created service name its deployment mode, ask for authentication exactly
  -- if it was enabled and the mode supports it, and stop the service exactly if that was asked.
  pub create_manifest-annotations :
      {m : Manifest A}
      → create_manifest a ≡ ok m
      → (lookup deployment_mode_annotation m.annotations ≡ text_if a.deployment_mode)
        × (lookup security_annotation m.annotations
            ≡ (if a.enable_auth && is_kserve a.deployment_mode then some "true" else none))
        × (lookup force_stop_annotation m.annotations
            ≡ (if a.stop_resume then some "True" else none))
  create_manifest-annotations h = let (_, _, same) = created h in rw same lookup-annotations
