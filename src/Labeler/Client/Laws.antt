-- ===== src/Labeler/Client/Laws.antt =====
-- What writing a label does to the repository's labels and to those of the pull request.
use opendatahub_tests.Shared.{
  String, ◌≡◌, refl, ◌||◌, some, List, arith, ◌==◌, Option-cases, inl, inr, eq_iff,
}
use opendatahub_tests.Labeler.Client.{
  Host, Call, IsLabelStore, set_label_in_repository, add_pr_label, label_color, create_label,
  edit_label,
}

module _ {host : Host} {snapshot : List String} (store : IsLabelStore host snapshot) where
  on_pr-set_label :
      (label j : String) (calls : List Call)
      → host.on_pr (set_label_in_repository host label calls) j ≡ host.on_pr calls j
  unfolding set_label_in_repository
  on_pr-set_label label j calls = elim (Option-cases (host.get_label calls label)) [
    | inl absent ↦
        rw (absent, set_label_in_repository)
          (store.after_other calls (create_label label (label_color label)) j refl)
    | inr ((name, color), found) ↦
        rw (found, set_label_in_repository)
          (ground (arith, store.after_other calls (edit_label name (label_color label)) j))
  ]

  pub on_pr-add_pr_label :
      (label j : String) (calls : List Call)
      → host.on_pr (add_pr_label host label calls) j ≡ (label == j || host.on_pr calls j)
  unfolding add_pr_label
  on_pr-add_pr_label label j calls = cc (
    store.after_add (set_label_in_repository host label calls) label j,
    on_pr-set_label label j calls,
  )

  -- On a host that keeps labels as documented, and whatever the repository held, the label exists
  -- afterwards with the colour of the table.
  pub get_label-set_label_in_repository :
      (label : String) (calls : List Call)
      → host.get_label (set_label_in_repository host label calls) label
        ≡ some (label, label_color label)
  unfolding set_label_in_repository
  get_label-set_label_in_repository label calls = elim (Option-cases (host.get_label calls label)) [
    | inl absent ↦
        rw (absent, set_label_in_repository) (store.after_create calls label (label_color label))
    | inr ((name, color), found) ↦
        rw (found, set_label_in_repository)
          (ground (
            arith,
            eq_iff color (label_color label),
            store.found_name calls label name color found,
            store.after_edit calls label (label_color label),
          ))
  ]
