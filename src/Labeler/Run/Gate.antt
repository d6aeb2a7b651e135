-- ===== src/Labeler/Run/Gate.antt =====
-- What has to hold before the script writes anything.
use opendatahub_tests.Shared.{
  String, ◌≡◌, refl, true, false, ◌||◌, Option, none, some, [], arith, ◌==◌, eq_iff,
}
use opendatahub_tests.Labeler.Client.{Host}
use opendatahub_tests.Labeler.Review.{is_text}
use opendatahub_tests.Labeler.Run.{
  Event, calls_of, add_remove_labels_action, build_push_pr_image_action, pr_size_action,
  welcome_comment_action, verify_allowed_user, run_pr_label_action, main,
}

is_text-excludes :
    (v : Option String) (s t : String) → (s == t) ≡ false → is_text v s ≡ true → is_text v t ≡ false
is_text-excludes none s t differ h = ground arith
is_text-excludes (some v) s t differ h = ground (arith, eq_iff v s, eq_iff v t, eq_iff s t)

module _ (host : Host) (e : Event) where
  run_outsider :
      host.is_member e.user_login ≡ false
      → (is_text e.action add_remove_labels_action || is_text e.action build_push_pr_image_action)
        ≡ true
      → calls_of (run_pr_label_action host e) ≡ []
  unfolding run_pr_label_action verify_allowed_user
  run_outsider outside kind = ground (
    arith,
    is_text-excludes e.action add_remove_labels_action pr_size_action refl,
    is_text-excludes e.action add_remove_labels_action welcome_comment_action refl,
    is_text-excludes e.action build_push_pr_image_action pr_size_action refl,
  )

  -- For anyone who is not in the contributors' team, the script makes no call in the two actions
  -- that the team guards: the labels by a review, a comment or a new commit, and the image build.
  -- In these actions a new commit of an outsider takes no label off.
  pub main_outsider :
      host.is_member e.user_login ≡ false
      → (is_text e.action add_remove_labels_action || is_text e.action build_push_pr_image_action)
        ≡ true
      → calls_of (main host e) ≡ []
  unfolding main
  main_outsider outside kind = ground (arith, run_outsider outside kind)
