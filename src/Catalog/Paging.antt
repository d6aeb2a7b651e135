-- ===== src/Catalog/Paging.antt =====
-- `fetch_all_artifacts_with_dynamic_paging` of search/utils.py. What the endpoint answers to a page
-- size is an argument; the loop runs on fuel, one unit for each request.
pub mod Complete
use opendatahub_tests.Shared.{
  ℕ, zero, suc, ◌+◌, String, Bool, not, Option, none, some, List, if◌then◌else◌, given,
}

pub record Response (A : Type 0) : Type 0 where
  pub items : List A
  pub next_page_token : Option String

module _ {A : Type 0} (execute_get : ℕ → Response A) (page_size_increment : ℕ) where
  unfoldable pub fetch_all_artifacts : ℕ → ℕ → Option (Response A)
  fetch_all_artifacts zero page_size = none
  fetch_all_artifacts (suc fuel) page_size =
      let response = execute_get page_size in
      let retried = fetch_all_artifacts fuel (page_size + page_size_increment) in
      if not (given response.next_page_token) then some response else retried
