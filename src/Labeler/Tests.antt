-- ===== src/Labeler/Tests.antt =====
-- A host that keeps labels in a list, runs of the script on it, and instances of its theorems.
use opendatahub_tests.Shared.{
  String, ◌≡◌, refl, Bool, true, false, ◌&&◌, ◌||◌, not, Option, none, some, List, [], ◌∷◌, arith,
  ◌==◌, if◌then◌else◌, eq_refl, any, has, join, lower, drop_chars, leading_spaces, without_char,
  lookup,
}
use opendatahub_tests.Labeler.Client.{
  Host, Call, IsLabelStore, edit_label, create_label, add_to_labels, remove_from_labels,
  writes_pr_labels, set_label_in_repository, label_color,
}
use opendatahub_tests.Labeler.Client.{add_pr_label}
use opendatahub_tests.Labeler.Client.Laws.{get_label-set_label_in_repository}
use opendatahub_tests.Labeler.Constants.{lgtm_by, changes_requested_by, commented_by}
use opendatahub_tests.Labeler.Review.{
  shown, pull_request_review_label_actions, remove_stale, is_stale_on_push,
}
use opendatahub_tests.Labeler.Review.Effect.{review_effect, on_pr-remove_stale}
use opendatahub_tests.Labeler.Comment.{
  CommentEvent, user_requested_labels, issue_comment_label_actions, run_commands, collect,
  comment_loop, comment_action, apply_label,
}
use opendatahub_tests.Labeler.Comment.Commands.{lookup-collect}
use opendatahub_tests.Labeler.Comment.Approval.{is_dismissal, any-dismissal-issue_comment}
use opendatahub_tests.Labeler.Run.{Event, calls_of, main}
use opendatahub_tests.Labeler.Run.Gate.{main_outsider}
use opendatahub_tests.Labeler.Size.{ChangedFile, get_pr_size, get_size_label, set_pr_size}
use opendatahub_tests.Labeler.Size.Effect.{set_pr_size_absent, set_pr_size_present}
use opendatahub_tests.Labeler.Size.Bands.{get_size_label-eq-get_or}

labels_after : List String → List Call → String → Bool
labels_after start [] j = has start j
labels_after start (add_to_labels l ∷ h) j = l == j || labels_after start h j
labels_after start (remove_from_labels l ∷ h) j = not (l == j) && labels_after start h j
labels_after start (_ ∷ h) j = labels_after start h j

colors_after : List Call → String → Option (String × String)
colors_after [] l = none
colors_after (create_label n c ∷ h) l = if n == l then some (l, c) else colors_after h l
colors_after (edit_label n c ∷ h) l = if n == l then some (l, c) else colors_after h l
colors_after (_ ∷ h) l = colors_after h l

abbrev list_host : List String → Host
list_host start = record {
  get_label = colors_after;
  on_pr = labels_after start;
  is_member = λ user. elim user [ none ↦ false | some u ↦ u == "alice" ];
  can_assign = λ user. true;
  current_user = "bot";
  reviews = record { id = 7; login = "bot"; state = "approved" } ∷ [];
}

after_other :
    (start : List String) (h : List Call) (c : Call) (j : String)
    → writes_pr_labels c ≡ false
    → labels_after start (c ∷ h) j ≡ labels_after start h j
unfolding labels_after
after_other start h (add_to_labels l) j e = ground arith
after_other start h (remove_from_labels l) j e = ground arith
after_other start h _ j e = refl

found_name : (h : List Call) (l n c : String) → colors_after h l ≡ some (n, c) → n ≡ l
unfolding colors_after
found_name [] l n c e = ground arith
found_name (create_label m d ∷ h) l n c e = ground (arith, found_name h l n c)
found_name (edit_label m d ∷ h) l n c e = ground (arith, found_name h l n c)
found_name (_ ∷ h) l n c e = found_name h l n c e

list_host-IsLabelStore : (start : List String) → IsLabelStore (list_host start) start
unfolding labels_after colors_after
list_host-IsLabelStore start = record {
  at_start = λ j. refl;
  after_add = λ h l j. refl;
  after_remove = λ h l j. refl;
  after_other = after_other start;
  found_name = found_name;
  after_create = λ h l c. ground (arith, eq_refl l);
  after_edit = λ h l c. ground (arith, eq_refl l);
}

abbrev small_change : List ChangedFile
small_change = record { additions = 20; deletions = 3 } ∷ []

small_change_label : get_size_label (get_pr_size small_change) ≡ "size/s"
unfolding get_size_label get_pr_size
small_change_label = refl

get_size_label-eq-get_or_example : get_size_label 20 ≡ "size/xs"
get_size_label-eq-get_or_example = get_size_label-eq-get_or 20

abbrev old_labels : List String
old_labels = "size/xl" ∷ "wip" ∷ []

abbrev old_store : IsLabelStore (list_host old_labels) old_labels
old_store = list_host-IsLabelStore old_labels

lacks_small : has old_labels (get_size_label (get_pr_size small_change)) ≡ false
unfolding get_size_label get_pr_size
lacks_small = refl

set_pr_size_absent_example :
    labels_after old_labels
      (set_pr_size (list_host old_labels) small_change old_labels [])
      "size/xl"
    ≡ false
unfolding get_size_label get_pr_size lower
set_pr_size_absent_example = set_pr_size_absent old_store small_change "size/xl" lacks_small

-- The stale label behind the wanted one stays.
set_pr_size_present_example :
    labels_after
      ("size/m" ∷ get_size_label (get_pr_size small_change) ∷ "size/xl" ∷ [])
      (set_pr_size
        (list_host ("size/m" ∷ get_size_label (get_pr_size small_change) ∷ "size/xl" ∷ []))
        small_change
        ("size/m" ∷ get_size_label (get_pr_size small_change) ∷ "size/xl" ∷ [])
        [])
      "size/xl"
    ≡ true
unfolding get_size_label get_pr_size lower
set_pr_size_present_example =
    set_pr_size_present small_change ("size/m" ∷ []) ("size/xl" ∷ []) "size/xl"
      (list_host-IsLabelStore
        ("size/m" ∷ get_size_label (get_pr_size small_change) ∷ "size/xl" ∷ []))
      refl

get_label-set_label_in_repository_example :
    colors_after (set_label_in_repository (list_host []) "hold" []) "hold"
    ≡ some ("hold", label_color "hold")
get_label-set_label_in_repository_example =
    get_label-set_label_in_repository (list_host-IsLabelStore []) "hold" []

abbrev requested : List String
requested = "changes-requested-by-alice" ∷ "verified" ∷ []

review_effect_example :
    let lgtm = join lgtm_by (shown (some "alice")) in
    let changes = join changes_requested_by (shown (some "alice")) in
    let after = λ (state : String).
      labels_after requested
        (pull_request_review_label_actions
          (list_host requested)
          (some "alice")
          (some state)
          requested
          [])
        changes in
    (after "approved" ≡ (lgtm == changes || (not (changes == changes) && has requested changes)))
    × (after "changes_requested"
        ≡ (changes == changes || (not (lgtm == changes) && has requested changes)))
    × (after "commented"
        ≡ (join commented_by (shown (some "alice")) == changes || has requested changes))
review_effect_example =
    review_effect (list_host-IsLabelStore requested) (some "alice")
      (join changes_requested_by (shown (some "alice")))

on_pr-remove_stale_example : labels_after requested (remove_stale requested []) "verified" ≡ false
unfolding is_stale_on_push lower
on_pr-remove_stale_example = on_pr-remove_stale (list_host-IsLabelStore requested) "verified"

abbrev cancel_comment : String
cancel_comment = "/hold then /LGTM  cancel"

abbrev by_alice : CommentEvent
by_alice = record {
  user_login = some "alice";
  pr_author = "bob";
  deleted = false;
  pr_labels = "lgtm-by-alice" ∷ [];
}

read_commands : user_requested_labels cancel_comment ≡ ("/hold", false) ∷ ("/lgtm", true) ∷ []
unfolding user_requested_labels lower drop_chars leading_spaces
read_commands = refl

-- Cancelling takes the label off, adds the other command's label, and dismisses no review.
cancel_calls :
    issue_comment_label_actions (list_host by_alice.pr_labels) by_alice cancel_comment []
    ≡ remove_from_labels "lgtm-by-alice" ∷ add_to_labels "hold" ∷ create_label "hold" "B60205" ∷ []
unfolding issue_comment_label_actions user_requested_labels lower drop_chars leading_spaces
    run_commands collect comment_loop comment_action apply_label add_pr_label
    set_label_in_repository label_color without_char colors_after
cancel_calls = refl

any-dismissal-issue_comment_example :
    any is_dismissal
      (issue_comment_label_actions (list_host by_alice.pr_labels) by_alice cancel_comment [])
    ≡ false
any-dismissal-issue_comment_example =
    any-dismissal-issue_comment (list_host by_alice.pr_labels) by_alice cancel_comment []

abbrev deleted_comment : CommentEvent
deleted_comment = record by_alice { deleted = true }

lookup-collect_example :
    lookup "wip" (collect [] (("/wip", false) ∷ ("/wip", true) ∷ [])) ≡ some true
unfolding without_char
lookup-collect_example = lookup-collect "wip" (("/wip", false) ∷ ("/wip", true) ∷ [])

abbrev outsider_event : Event
outsider_event = record {
  action = some "add-remove-labels";
  pr_number = 5;
  event_action = some "created";
  event_name = some "issue_comment";
  github_token = some "t";
  user_login = some "mallory";
  review_state = none;
  comment_env = "/hold";
  review_comment_env = "";
  pr_author = "bob";
  pr_labels = [];
  files = [];
  welcome_comment = "Welcome";
}

main_outsider_example : calls_of (main (list_host []) outsider_event) ≡ []
main_outsider_example = main_outsider (list_host []) outsider_event refl refl
