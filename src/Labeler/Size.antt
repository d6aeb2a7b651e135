-- ===== src/Labeler/Size.antt =====
-- `get_pr_size`, `get_size_label` and `set_pr_size` of pr_workflow.py.
pub mod Bands
pub mod Effect
use opendatahub_tests.Shared.{
  ℕ, ◌+◌, ◌-◌, ◌^◌, String, ◌&&◌, List, [], ◌∷◌, leb, ◌==◌, if◌then◌else◌, starts_with, lower,
}
use opendatahub_tests.Labeler.Constants.{size_label_prefix}
use opendatahub_tests.Labeler.Client.{Host, Call, remove_from_labels, add_pr_label}

pub record ChangedFile : Type 0 where
  pub additions : ℕ
  pub deletions : ℕ

sum_changes : ℕ → List ChangedFile → ℕ
sum_changes additions [] = additions
sum_changes additions (file ∷ files) =
    sum_changes (additions + (file.additions + file.deletions)) files

unfoldable pub get_pr_size : List ChangedFile → ℕ
unfolding sum_changes
get_pr_size files = sum_changes 0 files

-- `sys.maxsize`, on a 64-bit build.
abbrev pub max_size : ℕ
max_size = 2 ^ 63 - 1

abbrev pub size_labels : List (ℕ × ℕ × String)
size_labels =
    (0, 20, "size/xs")
    ∷ (21, 50, "size/s")
    ∷ (51, 100, "size/m")
    ∷ (101, 300, "size/l")
    ∷ (301, 1000, "size/xl")
    ∷ (1001, max_size, "size/xxl")
    ∷ []

find_label : List (ℕ × ℕ × String) → ℕ → String
find_label [] size = "size/xxl"
find_label ((min_size, max_size, label) ∷ bands) size =
    if leb min_size size && leb size max_size then label else find_label bands size

unfoldable pub get_size_label : ℕ → String
unfolding find_label
get_size_label size = find_label size_labels size

-- The loop of `set_pr_size` over the labels as they were fetched.
unfoldable pub set_size_loop : Host → String → List String → List Call → List Call
set_size_loop host size_label [] calls = add_pr_label host size_label calls
set_size_loop host size_label (label ∷ labels) calls =
    if label == size_label
    then calls
    else set_size_loop host size_label labels (
        if starts_with (lower label) size_label_prefix
        then remove_from_labels label ∷ calls
        else calls)

unfoldable pub set_pr_size : Host → List ChangedFile → List String → List Call → List Call
set_pr_size host files labels calls =
    set_size_loop host (get_size_label (get_pr_size files)) labels calls
