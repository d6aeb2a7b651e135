-- ===== src/Pods/Names.antt =====
-- `generate_random_name` of utilities/general.py; the hexadecimal digits of the random UUID are an
-- argument.
pub mod Lengths
use Prim.Native.String
use opendatahub_tests.Shared.{
  ℕ, suc, zero, String, Bool, ◌&&◌, Option, none, some, ◌==◌, leb, if◌then◌else◌, join,
}

-- `text[:n]`
unfoldable pub take_chars : ℕ → String → String
take_chars zero s = String.[]
take_chars (suc n) String.[] = String.[]
take_chars (suc n) (String.◌∷◌ c s) = String.◌∷◌ c (take_chars n s)

-- `none`: the `ValueError` for a length out of range.
unfoldable pub generate_random_name : String → ℕ → String → Option String
generate_random_name prefix length hex =
    if leb 1 length && leb length 32
    then some (
        if prefix == ""
        then take_chars length hex
        else join prefix (join "-" (take_chars length hex)))
    else none
