-- ===== src/Labeler/Comment/Approval.antt =====
-- Approvals and dismissals that a comment causes.
use opendatahub_tests.Shared.{
  String, ◌≡◌, refl, sym, ◌∙◌, Bool, true, false, ◌&&◌, ◌||◌, not, Option, List, [], ◌∷◌, arith,
  ◌==◌, any, join, inl, inr, Option-cases,
}
use opendatahub_tests.Shared.Prefixes.{join_ne_longer}
use opendatahub_tests.Labeler.Constants.{lgtm_label, lgtm_by, commented_by}
use opendatahub_tests.Labeler.Client.{
  Host, Call, add_pr_label, approve_review, dismiss_review, set_label_in_repository, create_label,
  edit_label, add_to_labels, remove_from_labels, label_color,
}
use opendatahub_tests.Labeler.Review.{shown}
use opendatahub_tests.Labeler.Comment.{
  CommentEvent, apply_label, comment_action, comment_loop, run_commands,
  issue_comment_label_actions, collect, user_requested_labels,
}

abbrev pub is_dismissal : Call → Bool
is_dismissal (dismiss_review id) = true
is_dismissal _ = false

abbrev pub is_approval : Call → Bool
is_approval approve_review = true
is_approval _ = false

abbrev pub is_label_call : Call → Bool
is_label_call (dismiss_review id) = false
is_label_call approve_review = false
is_label_call _ = true

module _ (host : Host) (p : Call → Bool)
    (other : (c : Call) → is_label_call c ≡ true → p c ≡ false) where
  any-set_label :
      (label : String) (calls : List Call)
      → any p (set_label_in_repository host label calls) ≡ any p calls
  unfolding set_label_in_repository
  any-set_label label calls = elim (Option-cases (host.get_label calls label)) [
    | inl absent ↦
        rw (absent, set_label_in_repository)
          (ground (arith, other (create_label label (label_color label)) refl))
    | inr ((name, color), found) ↦
        rw (found, set_label_in_repository)
          (ground (arith, other (edit_label name (label_color label)) refl))
  ]

  any-add_pr_label :
      (label : String) (calls : List Call) → any p (add_pr_label host label calls) ≡ any p calls
  unfolding add_pr_label
  any-add_pr_label label calls =
      ground (arith, other (add_to_labels label) refl, any-set_label label calls)

  any-apply_label :
      (e : CommentEvent) (label : String) (cancelled : Bool) (calls : List Call)
      → (label == lgtm_label) ≡ false
      → any p (apply_label host e label cancelled calls) ≡ any p calls
  unfolding apply_label
  any-apply_label e label cancelled calls h =
      ground (arith, other (remove_from_labels label) refl, any-add_pr_label label calls)

not_dismissal : (c : Call) → is_label_call c ≡ true → is_dismissal c ≡ false
not_dismissal (dismiss_review id) h = sym h
not_dismissal _ h = refl

approval_label_ne : (user : Option String) → (join lgtm_by (shown user) == lgtm_label) ≡ false
approval_label_ne user = join_ne_longer "lgtm" "-" "by-" (shown user)

module _ (host : Host) (e : CommentEvent) where
  any-dismissal-comment_action :
      (label : String) (cancelled : Bool) (calls : List Call)
      → any is_dismissal (comment_action host e label cancelled calls) ≡ any is_dismissal calls
  unfolding comment_action
  any-dismissal-comment_action label cancelled calls = ground (
    arith,
    any-apply_label host is_dismissal not_dismissal e label cancelled calls,
    any-apply_label host is_dismissal not_dismissal e (join lgtm_by (shown e.user_login)) cancelled
        calls (approval_label_ne e.user_login),
    any-apply_label host is_dismissal not_dismissal e (join lgtm_by (shown e.user_login)) cancelled
        (approve_review ∷ calls) (approval_label_ne e.user_login),
  )

  any-dismissal-comment_loop :
      (labels : List (String × Bool)) (calls : List Call)
      → any is_dismissal (comment_loop host e labels calls) ≡ any is_dismissal calls
  unfolding comment_loop
  any-dismissal-comment_loop [] calls = refl
  any-dismissal-comment_loop ((label, cancelled) ∷ labels) calls =
      any-dismissal-comment_loop labels (comment_action host e label cancelled calls)
      ∙ any-dismissal-comment_action label cancelled calls

  -- The handling of a comment never dismisses a review, whatever the comment says and whether it
  -- was deleted: "/lgtm cancel" does not either.
  pub any-dismissal-issue_comment :
      (body : String) (calls : List Call)
      → any is_dismissal (issue_comment_label_actions host e body calls) ≡ any is_dismissal calls
  unfolding issue_comment_label_actions run_commands collect
  any-dismissal-issue_comment body calls = commands (user_requested_labels body)
    where
      commands :
          (found : List (String × Bool))
          → any is_dismissal (run_commands host e found calls) ≡ any is_dismissal calls
      commands [] = ground (
        arith,
        any-add_pr_label host is_dismissal not_dismissal (join commented_by (shown e.user_login))
            calls,
      )
      commands (command ∷ found) = any-dismissal-comment_loop (collect [] (command ∷ found)) calls

  -- An "lgtm" command that approves: it is not cancelled, or the comment was deleted.
  abbrev pub approves : String × Bool → Bool
  approves (label, cancelled) = label == lgtm_label && (not cancelled || e.deleted)
