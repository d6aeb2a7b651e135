-- ===== src/Pods/Images.antt =====
-- `get_pod_images`, `validate_image_format` and `validate_container_images` of
-- utilities/general.py. The registry's name comes from the client library, and is an argument.
pub mod Valid
use Prim.Native.Char.{Char, code}
use Prim.Native.String
use opendatahub_tests.Shared.{
  ℕ, suc, zero, String, Bool, true, false, ◌&&◌, ◌||◌, not, Option, none, some, List, [], ◌∷◌, ◌++◌,
  ◌==◌, leb, if◌then◌else◌, has, any, starts_with, in_text, drop_chars,
}

pub record Pod : Type 0 where
  pub containers : List String
  pub init_containers : List String

unfoldable pub get_pod_images : Pod → List String
get_pod_images pod = pod.containers ++ pod.init_containers

abbrev pub is_hex : Char → Bool
is_hex c = (leb b'a' (code c) && leb (code c) b'f') || (leb b'0' (code c) && leb (code c) b'9')

-- `[a-f0-9]{n}$`: a newline may follow the end.
hex_to_end : ℕ → String → Bool
hex_to_end zero s = s == "" || s == "\n"
hex_to_end (suc n) String.[] = false
hex_to_end (suc n) (String.◌∷◌ c s) = is_hex c && hex_to_end n s

-- `re.search(r"@sha256:[a-f0-9]{64}$", text)`
unfoldable pub has_digest : String → Bool
unfolding hex_to_end
has_digest String.[] = false
has_digest (String.◌∷◌ c s) =
    (starts_with (String.◌∷◌ c s) "@sha256:" && hex_to_end 64 (drop_chars 8 (String.◌∷◌ c s)))
    || has_digest s

pub data FormatError : Type 0 where
  not_from_registry no_digest : FormatError

-- `none`: the format is valid.
unfoldable pub validate_image_format : String → String → Option FormatError
validate_image_format registry image =
    if not (starts_with image registry)
    then some not_from_registry
    else if not (has_digest image)
    then some no_digest
    else none

pub data ImageError : Type 0 where
  bad_format : String → FormatError → ImageError
  not_listed : String → ImageError

format_errors : String → String → List ImageError
format_errors registry image = elim (validate_image_format registry image) [
  | none ↦ []
  | some e ↦ bad_format image e ∷ []
]

listing_errors : List String → String → List ImageError
listing_errors valid_image_refs image =
    if has valid_image_refs image then [] else not_listed image ∷ []

abbrev pub is_skipped : List String → String → Bool
is_skipped skip_patterns image = any (λ pattern. in_text pattern image) skip_patterns

validate_images : String → List String → List String → List String → List ImageError
validate_images registry valid_image_refs skip_patterns [] = []
validate_images registry valid_image_refs skip_patterns (image ∷ images) =
    let rest = validate_images registry valid_image_refs skip_patterns images in
    if is_skipped skip_patterns image
    then rest
    else format_errors registry image ++ (listing_errors valid_image_refs image ++ rest)

unfoldable pub validate_container_images :
    String → Pod → List String → List String → List ImageError
unfolding validate_images format_errors listing_errors
validate_container_images registry pod valid_image_refs skip_patterns =
    validate_images registry valid_image_refs skip_patterns (get_pod_images pod)
