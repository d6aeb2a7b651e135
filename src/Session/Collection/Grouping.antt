-- ===== src/Session/Collection/Grouping.antt =====
-- The three groups of collected tests, as filters.
use opendatahub_tests.Shared.{
  String, ◌≡◌, ◌∙◌, Bool, ◌&&◌, ◌||◌, not, List, [], ◌∷◌, ◌++◌, arith, if◌then◌else◌, keep,
  Bool-cases, inl, inr,
}
use mathlib.Core.List.{append_assoc, append-nil}
use opendatahub_tests.Session.Markers.{Item}
use opendatahub_tests.Session.Collection.{
  keyword, add_upgrade_test, Groups, group_item, group_items, no_groups,
}

module _ (modes : List String) where
  abbrev pub is_pre : Item → Bool
  is_pre item = keyword item "pre_upgrade" && add_upgrade_test item modes

  abbrev pub is_post : Item → Bool
  is_post item = keyword item "post_upgrade" && add_upgrade_test item modes

  -- A test of a plain session: no upgrade test that was taken, unless it is for installation too.
  abbrev pub is_plain : Item → Bool
  is_plain item = not (is_pre item || is_post item) || keyword item "install"

  abbrev one_if : Bool → Item → List Item
  one_if b item = if b then item ∷ [] else []

  group_item-eq :
      (g : Groups) (item : Item)
      → group_item modes g item ≡ record {
        pre_upgrade_tests = g.pre_upgrade_tests ++ one_if (is_pre item) item;
        post_upgrade_tests = g.post_upgrade_tests ++ one_if (is_post item) item;
        non_upgrade_tests = g.non_upgrade_tests ++ one_if (is_plain item) item;
      }
  unfolding group_item
  group_item-eq g item = ground (
    arith,
    append-nil g.pre_upgrade_tests,
    append-nil g.post_upgrade_tests,
    append-nil g.non_upgrade_tests,
  )

  keep-cons :
      (p : Item → Bool) (g : List Item) (item : Item) (items : List Item)
      → (g ++ one_if (p item) item) ++ keep p items ≡ g ++ keep p (item ∷ items)
  keep-cons p g item items = elim (Bool-cases (p item)) [
    | inl h ↦ rw h (append_assoc g (item ∷ []) (keep p items))
    | inr h ↦ rw h (append_assoc g [] (keep p items))
  ]

  group_items-eq :
      (g : Groups) (items : List Item)
      → group_items modes g items ≡ record {
        pre_upgrade_tests = g.pre_upgrade_tests ++ keep is_pre items;
        post_upgrade_tests = g.post_upgrade_tests ++ keep is_post items;
        non_upgrade_tests = g.non_upgrade_tests ++ keep is_plain items;
      }
  unfolding group_items
  group_items-eq g [] = ground (
    arith,
    append-nil g.pre_upgrade_tests,
    append-nil g.post_upgrade_tests,
    append-nil g.non_upgrade_tests,
  )
  group_items-eq g (item ∷ items) =
      group_items-eq (group_item modes g item) items
      ∙ (rw (group_item-eq g item) (
          cc (
            keep-cons is_pre g.pre_upgrade_tests item items,
            keep-cons is_post g.post_upgrade_tests item items,
            keep-cons is_plain g.non_upgrade_tests item items,
          )))

  -- The groups are filters of the collected tests, in their order.
  pub group_items-keep :
      (items : List Item)
      → group_items modes no_groups items ≡ record {
        pre_upgrade_tests = keep is_pre items;
        post_upgrade_tests = keep is_post items;
        non_upgrade_tests = keep is_plain items;
      }
  group_items-keep items = group_items-eq no_groups items
