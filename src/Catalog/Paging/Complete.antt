-- ===== src/Catalog/Paging/Complete.antt =====
-- The paging ends, with everything in one page.
use opendatahub_tests.Shared.{
  ℕ, zero, suc, ◌+◌, ◌≤◌, ◌<◌, ◌≡◌, refl, false, some, given, arith, ◌⊎◌, inl, inr, Bool-cases,
}
use opendatahub_tests.Catalog.Paging.{Response, fetch_all_artifacts}

module _ {A : Type 0} (execute_get : ℕ → Response A) (inc : ℕ) where
  -- From a page size up, every answer is complete.
  abbrev pub CompleteFrom : ℕ → Type 0
  CompleteFrom total = (n : ℕ) → total ≤ n → given (execute_get n).next_page_token ≡ false

  -- If all items fit into a page of some size, and the size grows with each request, then as many
  -- requests as that size has units, and one more, are enough fuel: the answer to one of them is
  -- returned, it has no next page, and its page size is the first one or less than the size that
  -- suffices and one increment.
  pub fetch_all_artifacts_complete :
      (total fuel page_size : ℕ)
      → CompleteFrom total
      → 0 < inc
      → total ≤ fuel + page_size
      → (n : ℕ) × (fetch_all_artifacts execute_get inc (suc fuel) page_size ≡ some (execute_get n))
        × (given (execute_get n).next_page_token ≡ false)
        × ((n ≡ page_size) ⊎ (n < total + inc))
  unfolding fetch_all_artifacts
  fetch_all_artifacts_complete total zero page_size complete grows enough =
      let done = complete page_size (omega arith) in (page_size, rw done, done, inl refl)
  fetch_all_artifacts_complete total (suc fuel) page_size complete grows enough =
      elim (Bool-cases (given (execute_get page_size).next_page_token)) [
        | inl more ↦
            let (n, e, done, bound) =
              fetch_all_artifacts_complete total fuel (page_size + inc) complete grows
                (omega arith) in
            (n, rw more e, done, inr (ground (arith, complete page_size, bound)))
        | inr done ↦ (page_size, rw done, done, inl refl)
      ]
