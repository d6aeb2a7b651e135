-- ===== src/Labeler/Run.antt =====
-- The configuration checks and the dispatch of pr_workflow.py. `sys.exit` ends the run with a
-- status; the calls made before it stay made.
pub mod Gate
use opendatahub_tests.Shared.{
  ℕ, String, Bool, false, ◌&&◌, ◌||◌, not, Option, none, some, List, [], ◌∷◌, ◌==◌, nat_eq,
  if◌then◌else◌, has, in_text, given,
}
use opendatahub_tests.Labeler.Client.{Host, Call, issue_comment, add_to_assignees}
use opendatahub_tests.Labeler.Size.{ChangedFile, set_pr_size}
use opendatahub_tests.Labeler.Review.{is_text, pull_request_review_label_actions, remove_stale}
use opendatahub_tests.Labeler.Comment.{issue_comment_label_actions}

-- What the script reads: the environment, and the pull request as it was fetched.
pub record Event : Type 0 where
  pub action : Option String
  pub pr_number : ℕ
  pub event_action : Option String
  pub event_name : Option String
  pub github_token : Option String
  pub user_login : Option String
  pub review_state : Option String
  pub comment_env : String
  pub review_comment_env : String
  pub pr_author : String
  pub pr_labels : List String
  pub files : List ChangedFile
  pub welcome_comment : String

pub data Outcome : Type 0 where
  finished : List Call → Outcome
  exited : ℕ → List Call → Outcome

abbrev pub calls_of : Outcome → List Call
calls_of (finished calls) = calls
calls_of (exited status calls) = calls

abbrev pub pr_size_action : String
pr_size_action = "add-pr-size-label"

abbrev pub add_remove_labels_action : String
add_remove_labels_action = "add-remove-labels"

abbrev pub welcome_comment_action : String
welcome_comment_action = "add-welcome-comment-set-assignee"

abbrev pub build_push_pr_image_action : String
build_push_pr_image_action = "push-container-on-comment"

abbrev pub supported_actions : List String
supported_actions =
    pr_size_action ∷ add_remove_labels_action ∷ welcome_comment_action ∷ build_push_pr_image_action
    ∷ []

abbrev pub is_supported : Option String → Bool
is_supported none = false
is_supported (some action) = has supported_actions action

-- `none`: every check passed.
unfoldable pub verify_base_config : Event → Option ℕ
verify_base_config e =
    if not (given e.action) || not (is_supported e.action)
    then some 1
    else if nat_eq e.pr_number 0
    then some 1
    else if not (given e.event_action)
    then some 1
    else if not (given e.event_name)
    then some 1
    else if not (given e.github_token)
    then some 1
    else none

-- The body of a comment in the discussion, or else of a review.
unfoldable pub comment_body : Event → String
comment_body e = if e.comment_env == "" then e.review_comment_env else e.comment_env

unfoldable pub verify_labeler_config : Event → Option ℕ
unfolding comment_body
verify_labeler_config e =
    let on_comment =
      is_text e.event_name "issue_comment" || is_text e.event_name "pull_request_review" in
    if is_text e.action add_remove_labels_action && on_comment
    then (if not (given e.user_login)
        then some 1
        else if on_comment && comment_body e == ""
        then some 0
        else none)
    else none

unfoldable pub add_remove_pr_labels : Host → Event → List Call → List Call
unfolding comment_body
add_remove_pr_labels host e calls =
    if not (comment_body e == "") && in_text e.welcome_comment (comment_body e)
    then calls
    else if is_text e.event_action "synchronize"
    then remove_stale e.pr_labels calls
    else if is_text e.event_name "issue_comment"
    then issue_comment_label_actions host
        (record {
          user_login = e.user_login;
          pr_author = e.pr_author;
          deleted = is_text e.event_action "deleted";
          pr_labels = e.pr_labels;
        })
        (comment_body e) calls
    else if is_text e.event_name "pull_request_review"
        || (is_text e.event_name "workflow_run" && is_text e.event_action "submitted")
    then pull_request_review_label_actions host e.user_login e.review_state e.pr_labels calls
    else calls

-- A refused assignment is caught, and only logged.
unfoldable pub add_welcome_comment_set_assignee : Host → Event → List Call → List Call
add_welcome_comment_set_assignee host e calls =
    if host.can_assign e.pr_author
    then add_to_assignees e.pr_author ∷ (issue_comment ∷ calls)
    else issue_comment ∷ calls

unfoldable pub verify_allowed_user : Host → Event → Bool
verify_allowed_user host e = host.is_member e.user_login

-- The last two branches of `run_pr_label_action`.
finish_action : Host → Event → List Call → Outcome
finish_action host e calls =
    let labelled =
      if is_text e.action add_remove_labels_action && verify_allowed_user host e
      then add_remove_pr_labels host e calls
      else calls in
    finished (
      if is_text e.action welcome_comment_action
      then add_welcome_comment_set_assignee host e labelled
      else labelled)

unfoldable pub run_pr_label_action : Host → Event → Outcome
unfolding finish_action
run_pr_label_action host e =
    let sized =
      if is_text e.action pr_size_action then set_pr_size host e.files e.pr_labels [] else [] in
    if is_text e.action build_push_pr_image_action && not (verify_allowed_user host e)
    then exited 1 sized
    else finish_action host e sized

-- `main`: the two checks of the constructors, then the action.
unfoldable pub main : Host → Event → Outcome
main host e = elim (verify_base_config e) [
  | some status ↦ exited status []
  | none ↦ elim (verify_labeler_config e) [
    | some status ↦ exited status []
    | none ↦ run_pr_label_action host e
  ]
]
