-- ===== src/Labeler/Size/Bands.antt =====
-- The size label, against a count of thresholds.
use opendatahub_tests.Shared.{
  ℕ, String, ◌≡◌, refl, true, Bool, List, [], ◌∷◌, arith, ltb, length, keep, get_or, starts_with,
  lower, all, and_parts,
}
use opendatahub_tests.Labeler.Size.{get_size_label, find_label, size_labels}
use opendatahub_tests.Labeler.Constants.{size_label_prefix}

abbrev pub thresholds : List ℕ
thresholds = 20 ∷ 50 ∷ 100 ∷ 300 ∷ 1000 ∷ []

abbrev pub names : List String
names = "size/xs" ∷ "size/s" ∷ "size/m" ∷ "size/l" ∷ "size/xl" ∷ "size/xxl" ∷ []

-- The label of a size is the one at the number of thresholds that the size exceeds, for every
-- size: those above `sys.maxsize` too.
pub get_size_label-eq-get_or :
    (size : ℕ)
    → get_size_label size
      ≡ get_or names (length (keep (λ limit. ltb limit size) thresholds)) "size/xxl"
unfolding get_size_label
get_size_label-eq-get_or size = ground arith

find_label-all :
    (q : String → Bool) (bands : List (ℕ × ℕ × String)) (size : ℕ)
    → all (λ b. q b.2) bands ≡ true
    → q "size/xxl" ≡ true
    → q (find_label bands size) ≡ true
unfolding find_label
find_label-all q [] size h last = last
find_label-all q ((lo, hi, label) ∷ bands) size h last =
    let (here, later) = and_parts (q label) _ h in
    ground (arith, find_label-all q bands size later last)

pub starts_with-get_size_label :
    (size : ℕ) → starts_with (lower (get_size_label size)) size_label_prefix ≡ true
unfolding get_size_label lower
starts_with-get_size_label size =
    find_label-all (λ l. starts_with (lower l) size_label_prefix) size_labels size refl refl
