-- ===== src/Session/Collection/Selection.antt =====
-- What a session runs and what it reports as deselected.
use opendatahub_tests.Shared.{
  ℕ, String, ◌≡◌, refl, ap, Bool, true, false, ◌&&◌, ◌||◌, not, Option, List, [], ◌∷◌, ◌++◌, arith,
  any, keep, Bool-cases, inl, inr, nat_eq, nat_eq_iff, any-append,
}
use opendatahub_tests.Session.Markers.{Item, mark_item, add_default_tier2_marker}
use opendatahub_tests.Session.Collection.{
  group_items, no_groups, has_item, dedupe, choose, Options, deployment_modes,
  pytest_collection_modifyitems,
}
use opendatahub_tests.Session.Collection.Grouping.{is_pre, is_post, is_plain, group_items-keep}

has_item-add_default_tier2_marker :
    (items : List Item) (i : Item) → has_item (add_default_tier2_marker items) i ≡ has_item items i
unfolding add_default_tier2_marker mark_item
has_item-add_default_tier2_marker [] i = refl
has_item-add_default_tier2_marker (item ∷ items) i =
    ground (arith, has_item-add_default_tier2_marker items i)

has_item-same :
    (items : List Item) (a b : Item)
    → nat_eq a.uid b.uid ≡ true
    → has_item items a ≡ has_item items b
has_item-same items a b h =
    ap (λ (u : ℕ). any (λ other. nat_eq other.uid u) items) ((nat_eq_iff a.uid b.uid).0 h)

has_item-dedupe :
    (kept items : List Item) (i : Item)
    → has_item (dedupe kept items) i ≡ (has_item kept i || has_item items i)
unfolding dedupe
has_item-dedupe kept [] i = ground arith
has_item-dedupe kept (item ∷ items) i = ground (
  arith,
  has_item-dedupe kept items i,
  has_item-dedupe (kept ++ item ∷ []) items i,
  any-append (λ (other : Item). nat_eq other.uid i.uid) kept (item ∷ []),
  has_item-same kept item i,
)

-- No test stands twice.
abbrev pub AllDistinct : List Item → Type 0
AllDistinct [] = Unit
AllDistinct (item ∷ items) = (has_item items item ≡ false) × AllDistinct items

AllDistinct-append :
    (items : List Item) (item : Item)
    → AllDistinct items
    → has_item items item ≡ false
    → AllDistinct (items ++ item ∷ [])
AllDistinct-append [] item d h = (refl, tt)
AllDistinct-append (x ∷ items) item (d, ds) h = (
  ground (arith, any-append (λ (other : Item). nat_eq other.uid x.uid) items (item ∷ [])),
  AllDistinct-append items item ds (ground arith),
)

dedupe-AllDistinct : (kept items : List Item) → AllDistinct kept → AllDistinct (dedupe kept items)
unfolding dedupe
dedupe-AllDistinct kept [] d = d
dedupe-AllDistinct kept (item ∷ items) d = elim (Bool-cases (has_item kept item)) [
  | inl there ↦ rw (there, dedupe) (dedupe-AllDistinct kept items d)
  | inr absent ↦
      rw (absent, dedupe)
        (dedupe-AllDistinct (kept ++ item ∷ []) items (AllDistinct-append kept item d absent))
]

add_default_tier2_marker-AllDistinct :
    (items : List Item) → AllDistinct items → AllDistinct (add_default_tier2_marker items)
unfolding add_default_tier2_marker mark_item
add_default_tier2_marker-AllDistinct [] d = tt
add_default_tier2_marker-AllDistinct (item ∷ items) (d, ds) = (
  ground (
    arith,
    has_item-add_default_tier2_marker items item,
    has_item-same (add_default_tier2_marker items) (mark_item item) item,
    nat_eq_iff item.uid item.uid,
  ),
  add_default_tier2_marker-AllDistinct items ds,
)

has_item-keep_le :
    (p : Item → Bool) (items : List Item) (i : Item)
    → has_item (keep p items) i ≡ true
    → has_item items i ≡ true
has_item-keep_le p (item ∷ items) i h = ground (arith, has_item-keep_le p items i)
has_item-keep_le p [] i h = h

has_item-choose :
    (options : Options) (items : List Item) (i : Item)
    → has_item (choose options (group_items (deployment_modes options) no_groups items)) i ≡ true
    → has_item items i ≡ true
unfolding choose
has_item-choose options items i h =
    let modes = deployment_modes options in
    ground (
      arith,
      group_items-keep modes items,
      has_item-keep_le (is_pre modes) items i,
      has_item-keep_le (is_post modes) items i,
      has_item-keep_le (is_plain modes) items i,
      has_item-dedupe [] (keep (is_pre modes) items ++ keep (is_post modes) items) i,
      any-append (λ (other : Item). nat_eq other.uid i.uid) (keep (is_pre modes) items)
          (keep (is_post modes) items),
    )

has_item-keep_absent :
    (chosen items : List Item) (i : Item)
    → has_item (keep (λ item. not (has_item chosen item)) items) i
      ≡ (has_item items i && not (has_item chosen i))
has_item-keep_absent chosen [] i = refl
has_item-keep_absent chosen (item ∷ items) i =
    ground (arith, has_item-keep_absent chosen items i, has_item-same chosen item i)

-- Whatever the options, a session runs collected tests only, and reports as deselected exactly the
-- collected tests that it does not run.
pub pytest_collection_modifyitems_partition :
    (options : Options) (items : List Item) (i : Item)
    → let result = pytest_collection_modifyitems options items in
      (has_item result.items i ≡ true → has_item items i ≡ true)
      × (has_item result.deselected i ≡ (has_item items i && not (has_item result.items i)))
unfolding pytest_collection_modifyitems
pytest_collection_modifyitems_partition options items i =
    let chosen = choose options (group_items (deployment_modes options) no_groups items) in
    (
      (λ h.
          has_item-choose options items i
            (ground (arith, has_item-add_default_tier2_marker chosen i))),
      ground
          (arith, has_item-add_default_tier2_marker chosen i, has_item-keep_absent chosen items i),
    )

abbrev pub options_of : Bool → Bool → Option String → Options
options_of pre post modes = record {
  pre_upgrade = pre;
  post_upgrade = post;
  upgrade_deployment_modes = modes;
}

-- A session with one of the two upgrade options runs, in the collected order, the upgrade tests of
-- that phase in the chosen deployment modes; a session with neither runs all other tests, the
-- upgrade tests marked "install" and those of other deployment modes.
pub pytest_collection_modifyitems_single :
    (mode : Option String) (items : List Item)
    → let modes = deployment_modes (options_of false false mode) in
      ((pytest_collection_modifyitems (options_of true false mode) items).items
        ≡ add_default_tier2_marker (keep (is_pre modes) items))
      × ((pytest_collection_modifyitems (options_of false true mode) items).items
          ≡ add_default_tier2_marker (keep (is_post modes) items))
      × ((pytest_collection_modifyitems (options_of false false mode) items).items
          ≡ add_default_tier2_marker (keep (is_plain modes) items))
unfolding pytest_collection_modifyitems deployment_modes
pytest_collection_modifyitems_single mode items =
    let groups = group_items-keep (deployment_modes (options_of false false mode)) items in
    (ground (arith, groups), ground (arith, groups), ground (arith, groups))

-- With both options a session runs the tests of either phase, none of them twice.
pub pytest_collection_modifyitems_both :
    (mode : Option String) (items : List Item) (i : Item)
    → let modes = deployment_modes (options_of true true mode) in
      let run = (pytest_collection_modifyitems (options_of true true mode) items).items in
      (has_item run i
        ≡ (has_item (keep (is_pre modes) items) i || has_item (keep (is_post modes) items) i))
      × AllDistinct run
unfolding pytest_collection_modifyitems
pytest_collection_modifyitems_both mode items i =
    let modes = deployment_modes (options_of true true mode) in
    let pre = keep (is_pre modes) items in
    let post = keep (is_post modes) items in
    let chosen = dedupe [] (pre ++ post) in
    rw (group_items-keep modes items) (
      ground (
        arith,
        has_item-add_default_tier2_marker chosen i,
        has_item-dedupe [] (pre ++ post) i,
        any-append (λ (other : Item). nat_eq other.uid i.uid) pre post,
      ),
      add_default_tier2_marker-AllDistinct chosen (dedupe-AllDistinct [] (pre ++ post) tt),
    )
