-- ===== src/Catalog/Compared/Agreed.antt =====
-- When the answers agree.
use opendatahub_tests.Shared.{
  String, ◌≡◌, refl, true, false, ◌&&◌, Option, List, [], ◌∷◌, has, is_empty, all, arith, ◌↔◌,
  eq_iff, eq_refl,
}
use opendatahub_tests.Catalog.Compared.{
  actual_ids, difference, compare_results, valid, validate_recommendations_subset,
}

is_empty-difference :
    (left right : List String) → is_empty (difference left right) ≡ all (has right) left
unfolding difference
is_empty-difference [] right = refl
is_empty-difference (id ∷ left) right = ground (arith, is_empty-difference left right)

all-has :
    (left right : List String) (id : String)
    → all (has right) left ≡ true
    → has left id ≡ true
    → has right id ≡ true
all-has (x ∷ left) right id h e = ground (arith, all-has left right id, eq_iff x id, eq_iff id x)
all-has [] right id h e = ground arith

all-has_of :
    (left right : List String)
    → ((id : String) → has left id ≡ true → has right id ≡ true)
    → all (has right) left ≡ true
all-has_of [] right sub = refl
all-has_of (x ∷ left) right sub =
    ground (arith, sub x, eq_refl x, all-has_of left right (λ id h. sub id (ground arith)))

compare_results-all :
    (items : List (Option String)) (expected : List String)
    → ((compare_results items expected ≡ (true, []))
        ↔ ((all (has expected) (actual_ids items) && all (has (actual_ids items)) expected) ≡ true))
unfolding compare_results
compare_results-all items expected =
    let missing = is_empty-difference expected (actual_ids items) in
    let extra = is_empty-difference (actual_ids items) expected in
    (ground (arith, missing, extra), ground (arith, missing, extra))

-- The comparison succeeds exactly if the answer and the database have the same ids, and it gives no
-- error then.
pub compare_results_iff :
    (items : List (Option String)) (expected : List String)
    → ((compare_results items expected ≡ (true, []))
        ↔ ((id : String) → has (actual_ids items) id ≡ has expected id))
compare_results_iff items expected =
    let actual = actual_ids items in
    (
      (λ h id.
          let both = (compare_results-all items expected).0 h in
          ground (arith, both, all-has actual expected id, all-has expected actual id)),
      (λ same. (compare_results-all items expected).1 (
          ground (
            arith,
            all-has_of actual expected (λ id h. ground (arith, same id)),
            all-has_of expected actual (λ id h. ground (arith, same id)),
          ))),
    )

-- The recommendations pass exactly if all their ids are among those of the artifacts and there is
-- an artifact: with none, the share cannot be computed.
pub validate_recommendations_subset_iff :
    (full recommended : List (Option String))
    → ((validate_recommendations_subset full recommended ≡ valid)
        ↔ ((is_empty full ≡ false) × (all (has (actual_ids full)) (actual_ids recommended) ≡ true)))
unfolding validate_recommendations_subset
validate_recommendations_subset_iff full recommended =
    let same = is_empty-difference (actual_ids recommended) (actual_ids full) in
    (ground (arith, same), ground (arith, same))
