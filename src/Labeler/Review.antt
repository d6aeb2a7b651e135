-- ===== src/Labeler/Review.antt =====
-- `pull_request_review_label_actions` of pr_workflow.py, and its removal of review labels when a
-- commit is pushed.
pub mod Effect
use opendatahub_tests.Shared.{
  String, Bool, ◌||◌, Option, none, some, List, [], ◌∷◌, ◌==◌, if◌then◌else◌, starts_with, lower,
  has, join, false,
}
use opendatahub_tests.Labeler.Constants.{
  verified_label, lgtm_by, changes_requested_by, commented_by, approved,
}
use opendatahub_tests.Labeler.Client.{Host, Call, remove_from_labels, add_pr_label}

-- An f-string shows a missing login as "None".
abbrev pub shown : Option String → String
shown none = "None"
shown (some s) = s

-- `value == text` where the value may be missing.
abbrev pub is_text : Option String → String → Bool
is_text none t = false
is_text (some s) t = s == t

-- The labels to add and to remove for a state of a review.
unfoldable pub review_labels : Option String → Option String → Option String × Option String
review_labels user_login review_state =
    let lgtm_label = join lgtm_by (shown user_login) in
    let change_requested_label = join changes_requested_by (shown user_login) in
    if is_text review_state approved
    then (some lgtm_label, some change_requested_label)
    else if is_text review_state "changes_requested"
    then (some change_requested_label, some lgtm_label)
    else if is_text review_state "commented"
    then (some (join commented_by (shown user_login)), none)
    else (none, none)

unfoldable pub add_if_missing : Host → Option String → List String → List Call → List Call
add_if_missing host none pr_labels calls = calls
add_if_missing host (some label) pr_labels calls =
    if has pr_labels label then calls else add_pr_label host label calls

unfoldable pub remove_if_there : Option String → List String → List Call → List Call
remove_if_there none pr_labels calls = calls
remove_if_there (some label) pr_labels calls =
    if has pr_labels label then remove_from_labels label ∷ calls else calls

unfoldable pub pull_request_review_label_actions :
    Host → Option String → Option String → List String → List Call → List Call
unfolding add_if_missing remove_if_there
pull_request_review_label_actions host user_login review_state pr_labels calls =
    let (to_add, to_remove) = review_labels user_login review_state in
    remove_if_there to_remove pr_labels (add_if_missing host to_add pr_labels calls)

-- The test of the loop under `event_action == "synchronize"`.
unfoldable pub is_stale_on_push : String → Bool
is_stale_on_push label =
    lower label == verified_label
    || starts_with (lower label) lgtm_by
    || starts_with (lower label) changes_requested_by
    || starts_with (lower label) commented_by

unfoldable pub remove_stale : List String → List Call → List Call
remove_stale [] calls = calls
remove_stale (label ∷ labels) calls =
    remove_stale labels (if is_stale_on_push label then remove_from_labels label ∷ calls else calls)
