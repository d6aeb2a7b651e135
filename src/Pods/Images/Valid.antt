-- ===== src/Pods/Images/Valid.antt =====
-- When a pod's images are accepted.
use opendatahub_tests.Shared.{
  String, ◌≡◌, refl, Bool, ◌&&◌, ◌||◌, List, [], ◌∷◌, ◌++◌, arith, has, all, is_empty, starts_with,
}
use opendatahub_tests.Pods.Images.{
  Pod, get_pod_images, has_digest, validate_image_format, format_errors, listing_errors, is_skipped,
  validate_images, validate_container_images,
}

abbrev is_accepted : String → List String → List String → String → Bool
is_accepted registry refs skips image =
    is_skipped skips image || (starts_with image registry && has_digest image && has refs image)

all-append : (p : String → Bool) (xs ys : List String) → all p (xs ++ ys) ≡ (all p xs && all p ys)
all-append p [] ys = refl
all-append p (x ∷ xs) ys = ground (arith, all-append p xs ys)

is_empty-validate_images :
    (registry : String) (refs skips images : List String)
    → is_empty (validate_images registry refs skips images)
      ≡ all (is_accepted registry refs skips) images
unfolding validate_images format_errors listing_errors validate_image_format
is_empty-validate_images registry refs skips [] = refl
is_empty-validate_images registry refs skips (image ∷ images) =
    ground (arith, is_empty-validate_images registry refs skips images)

-- A pod has no image error exactly if each image of its containers, and of its init containers, is
-- skipped, or comes from the registry, ends in a digest and is one of the valid references.
pub is_empty-validate_container_images :
    (registry : String) (pod : Pod) (refs skips : List String)
    → is_empty (validate_container_images registry pod refs skips) ≡ (
        all (is_accepted registry refs skips) pod.containers
        && all (is_accepted registry refs skips) pod.init_containers)
unfolding validate_container_images get_pod_images
is_empty-validate_container_images registry pod refs skips = ground (
  arith,
  is_empty-validate_images registry refs skips (pod.containers ++ pod.init_containers),
  all-append (is_accepted registry refs skips) pod.containers pod.init_containers,
)
