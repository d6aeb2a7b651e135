-- ===== src/Labeler/Review/Effect.antt =====
-- What a review, and what a pushed commit, leave of the labels.
use opendatahub_tests.Shared.{
  String, ◌≡◌, refl, Bool, true, false, ◌&&◌, ◌||◌, not, Option, none, some, List, [], ◌∷◌, arith,
  ◌==◌, has, join, eq_iff,
}
use opendatahub_tests.Shared.Prefixes.{join_ne_of_head}
use opendatahub_tests.Labeler.Constants.{lgtm_by, changes_requested_by, commented_by}
use opendatahub_tests.Labeler.Client.{Host, Call, IsLabelStore, remove_from_labels}
use opendatahub_tests.Labeler.Client.Laws.{on_pr-add_pr_label}
use opendatahub_tests.Labeler.Review.{
  shown, review_labels, add_if_missing, remove_if_there, pull_request_review_label_actions,
  is_stale_on_push, remove_stale,
}

abbrev optional_eq : Option String → String → Bool
optional_eq none j = false
optional_eq (some s) j = s == j

module _ {host : Host} {labels : List String} (store : IsLabelStore host labels) where
  on_pr-add_if_missing :
      (label : Option String) (j : String)
      → host.on_pr (add_if_missing host label labels []) j ≡ (optional_eq label j || has labels j)
  unfolding add_if_missing
  on_pr-add_if_missing none j = store.at_start j
  on_pr-add_if_missing (some label) j =
      ground (arith, on_pr-add_pr_label store label j [], store.at_start j, eq_iff label j)

  on_pr-remove_if_there :
      (label : Option String) (j : String) (calls : List Call)
      → (has labels j ≡ false → optional_eq label j ≡ true → host.on_pr calls j ≡ false)
      → host.on_pr (remove_if_there label labels calls) j
        ≡ (not (optional_eq label j) && host.on_pr calls j)
  unfolding remove_if_there
  on_pr-remove_if_there none j calls h = refl
  on_pr-remove_if_there (some label) j calls h =
      ground (arith, store.after_remove calls label j, eq_iff label j)

  -- A review adds one label, and removes another that differs from it.
  swap_labels :
      (add remove : String) (j : String)
      → (add == remove) ≡ false
      → host.on_pr
          (remove_if_there (some remove) labels (add_if_missing host (some add) labels []))
          j
        ≡ (add == j || (not (remove == j) && has labels j))
  swap_labels add remove j differ = ground (
    arith,
    on_pr-add_if_missing (some add) j,
    on_pr-remove_if_there (some remove) j (add_if_missing host (some add) labels []),
    eq_iff add j,
    eq_iff remove j,
    eq_iff add remove,
  )

  -- On a host that keeps labels as documented, an approving review puts the reviewer's approval
  -- label on the pull request and takes their change request off; a requesting one does the
  -- reverse; a comment adds its label only. No other label changes.
  pub review_effect :
      (user : Option String) (j : String)
      → let lgtm = join lgtm_by (shown user) in
        let changes = join changes_requested_by (shown user) in
        let after = λ (state : String).
          host.on_pr (pull_request_review_label_actions host user (some state) labels []) j in
        (after "approved" ≡ (lgtm == j || (not (changes == j) && has labels j)))
        × (after "changes_requested" ≡ (changes == j || (not (lgtm == j) && has labels j)))
        × (after "commented" ≡ (join commented_by (shown user) == j || has labels j))
  unfolding pull_request_review_label_actions review_labels
  review_effect user j = (
    swap_labels (join lgtm_by (shown user)) (join changes_requested_by (shown user)) j (
        join_ne_of_head "l" "c" "gtm-by-" "hanges-requested-by-" (shown user) (shown user)
          (omega arith)),
    swap_labels (join changes_requested_by (shown user)) (join lgtm_by (shown user)) j (
        join_ne_of_head "c" "l" "hanges-requested-by-" "gtm-by-" (shown user) (shown user)
          (omega arith)),
    on_pr-add_if_missing (some (join commented_by (shown user))) j,
  )

  remove_stale_from :
      (rest : List String) (calls : List Call) (j : String)
      → host.on_pr (remove_stale rest calls) j
        ≡ (not (is_stale_on_push j && has rest j) && host.on_pr calls j)
  unfolding remove_stale
  remove_stale_from [] calls j = ground arith
  remove_stale_from (label ∷ rest) calls j = ground (
    arith,
    remove_stale_from rest calls j,
    remove_stale_from rest (remove_from_labels label ∷ calls) j,
    store.after_remove calls label j,
    eq_iff label j,
  )

  -- On such a host, when a commit is pushed, the verified label and every review label go, and nothing else.
  pub on_pr-remove_stale :
      (j : String)
      → host.on_pr (remove_stale labels []) j ≡ (not (is_stale_on_push j) && has labels j)
  on_pr-remove_stale j = ground (arith, remove_stale_from labels [] j, store.at_start j)
