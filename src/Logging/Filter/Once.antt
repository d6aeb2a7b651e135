-- ===== src/Logging/Filter/Once.antt =====
-- The filter of duplicates lets the first of equal messages through.
use opendatahub_tests.Shared.{
  ℕ, suc, String, ◌≡◌, refl, not, ◌&&◌, List, [], ◌∷◌, ◌==◌, if◌then◌else◌, has, arith, eq_iff,
  Bool-cases, inl, inr,
}
use opendatahub_tests.Logging.Filter.{DuplicateFilter, new_filter, filter, passed}

-- How often a message stands in a list.
pub occurrences : String → List String → ℕ
occurrences m [] = 0
occurrences m (x ∷ xs) = let more = occurrences m xs in if x == m then suc more else more

occurrences-passed :
    (f : DuplicateFilter) (msgs : List String) (m : String)
    → occurrences m (passed f msgs) ≡ (if has msgs m && not (has f.msgs m) then 1 else 0)
unfolding passed filter occurrences
occurrences-passed f [] m = refl
occurrences-passed f (x ∷ xs) m = elim (Bool-cases (has f.msgs x)) [
  | inl e ↦ ground (arith, e, eq_iff x m, occurrences-passed f xs m)
  | inr e ↦ ground (arith, e, eq_iff x m, occurrences-passed (record { msgs = x ∷ f.msgs }) xs m)
]

-- Each message that is logged passes a new filter exactly once, however often it is logged, and no
-- other message passes.
pub occurrences-passed-new_filter :
    (msgs : List String) (m : String)
    → occurrences m (passed new_filter msgs) ≡ (if has msgs m then 1 else 0)
unfolding new_filter
occurrences-passed-new_filter msgs m = ground (arith, occurrences-passed new_filter msgs m)
