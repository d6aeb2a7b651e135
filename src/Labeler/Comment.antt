-- ===== src/Labeler/Comment.antt =====
-- `issue_comment_label_actions` and `dismiss_pr_approval` of pr_workflow.py: the commands in a
-- comment.
pub mod Commands
pub mod Approval
use opendatahub_tests.Shared.{
  ℕ, zero, suc, ◌+◌, ◌-◌, String, Bool, ◌&&◌, ◌||◌, not, Option, none, some, List, [], ◌∷◌, ◌==◌,
  if◌then◌else◌, starts_with, lower, has, any, put, join, drop_chars, leading_spaces, without_char,
  first,
}
use Prim.Native.String.{count}
use mathlib.Core.List.{reverse}
use opendatahub_tests.Labeler.Constants.{
  supported_labels, cancel_action, lgtm_label, lgtm_by, commented_by, approved,
}
use opendatahub_tests.Labeler.Client.{
  Host, HostReview, Call, remove_from_labels, approve_review, dismiss_review, add_pr_label,
}
use opendatahub_tests.Labeler.Review.{shown, is_text}

-- A match of the pattern at the front of a text: the label, whether "cancel" follows, the length.
abbrev pub Hit : Type 0
Hit = String × Bool × ℕ

-- `(<labels>)\s*(cancel)?` at one place. Both repetitions are greedy and the last group is
-- optional, so the first choice of each always succeeds.
match_here : String → Option Hit
match_here text = elim (first (starts_with text) supported_labels) [
  | none ↦ none
  | some label ↦
      let after = drop_chars (count label) text in
      let spaces = leading_spaces after in
      let cancelled = starts_with (drop_chars spaces after) cancel_action in
      some (label, cancelled, count label + spaces + (if cancelled then 6 else 0))
]

-- `re.findall`: leftmost matches that do not overlap; `skip` characters belong to the last match.
scan : ℕ → String → List (String × Bool)
scan skip String.[] = []
scan (suc skip) (String.◌∷◌ c s) = scan skip s
scan zero (String.◌∷◌ c s) = elim (match_here (String.◌∷◌ c s)) [
  | none ↦ scan zero s
  | some (label, cancelled, size) ↦ (label, cancelled) ∷ scan (size - 1) s
]

unfoldable pub user_requested_labels : String → List (String × Bool)
unfolding scan match_here
user_requested_labels comment_body = scan 0 (lower comment_body)

-- The dictionary of commands: of the same label the last one counts.
unfoldable pub collect : List (String × Bool) → List (String × Bool) → List (String × Bool)
collect labels [] = labels
collect labels ((label, cancelled) ∷ found) =
    collect (put (without_char b'/' label) cancelled labels) found

-- `dismiss_pr_approval`: the reviews from the newest to the oldest.
dismiss_loop : String → List HostReview → List Call → List Call
dismiss_loop current_user [] calls = calls
dismiss_loop current_user (review ∷ reviews) calls = dismiss_loop current_user reviews (
    if review.login == current_user && review.state == approved
    then dismiss_review review.id ∷ calls
    else calls)

unfoldable pub dismiss_pr_approval : Host → List Call → List Call
unfolding dismiss_loop
dismiss_pr_approval host calls = dismiss_loop host.current_user (reverse host.reviews) calls

pub record CommentEvent : Type 0 where
  pub user_login : Option String
  pub pr_author : String
  -- `event_action == "deleted"`
  pub deleted : Bool
  pub pr_labels : List String

-- What follows the `lgtm` case in the loop, for the label as it then is.
unfoldable pub apply_label : Host → CommentEvent → String → Bool → List Call → List Call
apply_label host e label cancelled calls =
    let label_in_pr = any (λ l. label == lower l) e.pr_labels in
    if cancelled || e.deleted
    then (let calls' = (if label == lgtm_label then dismiss_pr_approval host calls else calls) in
        if label_in_pr then remove_from_labels label ∷ calls' else calls')
    else if label_in_pr
    then calls
    else add_pr_label host label calls

-- One round of the loop over the commands.
unfoldable pub comment_action : Host → CommentEvent → String → Bool → List Call → List Call
comment_action host e label cancelled calls =
    if label == lgtm_label
    then (if is_text e.user_login e.pr_author
        then calls
        else apply_label host e (join lgtm_by (shown e.user_login)) cancelled
            (if not cancelled || e.deleted then approve_review ∷ calls else calls))
    else apply_label host e label cancelled calls

unfoldable pub comment_loop : Host → CommentEvent → List (String × Bool) → List Call → List Call
comment_loop host e [] calls = calls
comment_loop host e ((label, cancelled) ∷ labels) calls =
    comment_loop host e labels (comment_action host e label cancelled calls)

unfoldable pub run_commands : Host → CommentEvent → List (String × Bool) → List Call → List Call
run_commands host e [] calls =
    (let label = join commented_by (shown e.user_login) in
      if has e.pr_labels label then calls else add_pr_label host label calls)
run_commands host e (command ∷ commands) calls =
    comment_loop host e (collect [] (command ∷ commands)) calls

unfoldable pub issue_comment_label_actions : Host → CommentEvent → String → List Call → List Call
issue_comment_label_actions host e comment_body calls =
    run_commands host e (user_requested_labels comment_body) calls
