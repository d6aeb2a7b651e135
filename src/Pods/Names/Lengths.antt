-- ===== src/Pods/Names/Lengths.antt =====
-- The length of a generated name.
use Prim.Native.Nat.{min}
use Prim.Native.String.{count}
use opendatahub_tests.Shared.{
  ℕ, suc, zero, ◌+◌, String, ◌≡◌, true, false, ◌&&◌, none, some, ◌==◌, leb, if◌then◌else◌, join,
  arith, Bool-cases, inl, inr,
}
use text.Mathlib.TextLemmas.{length-nil, length-cons, length-append}
use opendatahub_tests.Pods.Names.{take_chars, generate_random_name}

count-take_chars : (n : ℕ) (s : String) → count (take_chars n s) ≡ min n (count s)
unfolding take_chars
count-take_chars zero s = omega (arith, length-nil)
count-take_chars (suc n) String.[] = omega (arith, length-nil)
count-take_chars (suc n) (String.◌∷◌ c s) =
    omega (arith, length-cons c s, length-cons c (take_chars n s), count-take_chars n s)

-- From 32 random digits a name is generated exactly if the length is between 1 and 32. It has that
-- many characters, and those of the prefix and one more if the prefix is not empty.
pub generate_random_name_lem :
    (prefix : String) (length : ℕ) (hex : String)
    → count hex ≡ 32
    → ((leb 1 length && leb length 32) ≡ true
        → (name : String) × (generate_random_name prefix length hex ≡ some name)
          × (count name ≡ (if prefix == "" then length else count prefix + 1 + length)))
      × ((leb 1 length && leb length 32) ≡ false → generate_random_name prefix length hex ≡ none)
unfolding generate_random_name
generate_random_name_lem prefix length hex digits = (
  (λ h. elim (Bool-cases (prefix == "")) [
    | inl e ↦ (take_chars length hex, ground arith, ground (arith, count-take_chars length hex))
    | inr e ↦ (
      join prefix (join "-" (take_chars length hex)),
      ground arith,
      ground (
        arith,
        count-take_chars length hex,
        length-append prefix (join "-" (take_chars length hex)),
        length-append "-" (take_chars length hex),
      ),
    )
  ]),
  (λ h. rw h),
)
