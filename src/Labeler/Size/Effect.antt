-- ===== src/Labeler/Size/Effect.antt =====
-- What `set_pr_size` leaves on the pull request.
use opendatahub_tests.Shared.{
  String, ◌≡◌, Bool, false, ◌&&◌, ◌||◌, not, List, [], ◌∷◌, ◌++◌, arith, ◌==◌, starts_with, lower,
  has, eq_iff, eq_refl,
}
use opendatahub_tests.Labeler.Constants.{size_label_prefix}
use opendatahub_tests.Labeler.Client.{Host, Call, IsLabelStore, remove_from_labels}
use opendatahub_tests.Labeler.Client.Laws.{on_pr-add_pr_label}
use opendatahub_tests.Labeler.Size.{
  ChangedFile, get_pr_size, get_size_label, set_size_loop, set_pr_size,
}

-- A label that the loop takes for a size.
abbrev pub is_size : String → Bool
is_size label = starts_with (lower label) size_label_prefix

module _ {host : Host} {snapshot : List String} (store : IsLabelStore host snapshot)
    (goal : String) where
  -- With the wanted label absent, all other sizes go and it is added.
  loop-absent :
      (labels : List String) (calls : List Call) (j : String)
      → has labels goal ≡ false
      → host.on_pr (set_size_loop host goal labels calls) j
        ≡ (goal == j || (not (is_size j && has labels j) && host.on_pr calls j))
  unfolding set_size_loop
  loop-absent [] calls j h = rw (on_pr-add_pr_label store goal j calls) (ground arith)
  loop-absent (label ∷ labels) calls j h = ground (
    arith,
    loop-absent labels calls j,
    loop-absent labels (remove_from_labels label ∷ calls) j,
    store.after_remove calls label j,
    eq_iff label j,
    eq_iff label goal,
  )

  -- With the wanted label there, only the sizes in front of it go.
  loop-present :
      (before after : List String) (calls : List Call) (j : String)
      → has before goal ≡ false
      → host.on_pr (set_size_loop host goal (before ++ goal ∷ after) calls) j
        ≡ (not (is_size j && has before j) && host.on_pr calls j)
  unfolding set_size_loop
  loop-present [] after calls j h = ground (arith, eq_refl goal)
  loop-present (label ∷ before) after calls j h = ground (
    arith,
    loop-present before after calls j,
    loop-present before after (remove_from_labels label ∷ calls) j,
    store.after_remove calls label j,
    eq_iff label j,
    eq_iff label goal,
  )

module _ {host : Host} {labels : List String} (store : IsLabelStore host labels)
    (files : List ChangedFile) where
  -- On a host that keeps labels as documented, a pull request that lacks the label of its size
  -- gets it and loses every other size label, and no other label changes.
  pub set_pr_size_absent :
      (j : String)
      → has labels (get_size_label (get_pr_size files)) ≡ false
      → host.on_pr (set_pr_size host files labels []) j
        ≡ (get_size_label (get_pr_size files) == j || (not (is_size j) && has labels j))
  unfolding set_pr_size
  set_pr_size_absent j h =
      let goal = get_size_label (get_pr_size files) in
      ground (arith, loop-absent store goal labels [] j h, store.at_start j)

-- On a host that keeps labels as documented, a pull request that has the label of its size loses
-- the size labels listed in front of it and keeps all others: a stale size label that is listed
-- behind it too.
pub set_pr_size_present :
    {host : Host} (files : List ChangedFile) (before after : List String) (j : String)
    → IsLabelStore host (before ++ get_size_label (get_pr_size files) ∷ after)
    → has before (get_size_label (get_pr_size files)) ≡ false
    → host.on_pr
        (set_pr_size host files (before ++ get_size_label (get_pr_size files) ∷ after) [])
        j
      ≡ (not (is_size j && has before j)
          && has (before ++ get_size_label (get_pr_size files) ∷ after) j)
unfolding set_pr_size
set_pr_size_present files before after j store h =
    let goal = get_size_label (get_pr_size files) in
    ground (arith, loop-present store goal before after [] j h, store.at_start j)
