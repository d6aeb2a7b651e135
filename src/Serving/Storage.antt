-- ===== src/Serving/Storage.antt =====
-- `_check_storage_arguments` of utilities/inference_utils.py.
use opendatahub_tests.Shared.{
  String, ◌≡◌, ◌↔◌, ◌⊎◌, inl, inr, true, false, ◌&&◌, ◌||◌, not, Option, if◌then◌else◌, given,
  arith, Bool-cases,
}
use opendatahub_tests.Serving.Modes.{Result, ok, err, invalid_storage_argument}

unfoldable pub check_storage_arguments :
    Option String → Option String → Option String → Result (Unit {0})
check_storage_arguments storage_uri storage_key storage_path =
    if (given storage_uri && given storage_path)
      || (not (given storage_uri) && not (given storage_key))
      || (given storage_key && not (given storage_path))
    then err invalid_storage_argument
    else ok tt

-- The arguments are accepted exactly if they are a URI alone, or a key with a path and no URI.
pub check_storage_arguments-ok_iff :
    (uri key path : Option String)
    → (check_storage_arguments uri key path ≡ ok tt) ↔ (
        ((given uri ≡ true) × (given key ≡ false) × (given path ≡ false))
        ⊎ ((given uri ≡ false) × (given key ≡ true) × (given path ≡ true)))
unfolding check_storage_arguments
check_storage_arguments-ok_iff uri key path = elim (Bool-cases (given uri)) [
  | inl u ↦ elim (Bool-cases (given key)) [
    | inl k ↦ (ground arith, ground arith)
    | inr k ↦ (λ h. inl (u, k, ground arith), ground arith)
  ]
  | inr u ↦ (λ h. inr (u, ground arith, ground arith), ground arith)
]
