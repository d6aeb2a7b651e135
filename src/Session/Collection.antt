-- ===== src/Session/Collection.antt =====
-- `pytest_collection_modifyitems` of conftest.py.
pub mod Grouping
pub mod Selection
use opendatahub_tests.Shared.{
  ℕ, String, Bool, true, false, ◌&&◌, ◌||◌, not, Option, none, some, List, [], ◌∷◌, ◌++◌, ◌==◌,
  nat_eq, if◌then◌else◌, has, any, keep, given, split_on, is_empty,
}
use opendatahub_tests.Session.Markers.{Item, add_default_tier2_marker}

abbrev pub keyword : Item → String → Bool
keyword item k = has item.keywords k

-- The nested `_add_upgrade_test`: an empty keyword is not true.
unfoldable pub add_upgrade_test : Item → List String → Bool
add_upgrade_test item [] = true
add_upgrade_test item (mode ∷ modes) =
    any (λ k. not (k == "") && has (mode ∷ modes) k) item.keywords

pub record Groups : Type 0 where
  pub pre_upgrade_tests : List Item
  pub post_upgrade_tests : List Item
  pub non_upgrade_tests : List Item

abbrev append_if : Bool → List Item → Item → List Item
append_if b items item = if b then items ++ item ∷ [] else items

-- One round of the loop over the collected items.
unfoldable pub group_item : List String → Groups → Item → Groups
unfolding add_upgrade_test
group_item modes g item =
    if keyword item "pre_upgrade" && add_upgrade_test item modes
    then record {
      pre_upgrade_tests = g.pre_upgrade_tests ++ item ∷ [];
      post_upgrade_tests = append_if (keyword item "post_upgrade") g.post_upgrade_tests item;
      non_upgrade_tests = append_if (keyword item "install") g.non_upgrade_tests item;
    }
    else if keyword item "post_upgrade" && add_upgrade_test item modes
    then record {
      pre_upgrade_tests = append_if (keyword item "pre_upgrade") g.pre_upgrade_tests item;
      post_upgrade_tests = g.post_upgrade_tests ++ item ∷ [];
      non_upgrade_tests = append_if (keyword item "install") g.non_upgrade_tests item;
    }
    else record g { non_upgrade_tests = g.non_upgrade_tests ++ item ∷ [] }

unfoldable pub group_items : List String → Groups → List Item → Groups
group_items modes g [] = g
group_items modes g (item ∷ items) = group_items modes (group_item modes g item) items

-- Items are compared by identity.
abbrev pub has_item : List Item → Item → Bool
has_item items item = any (λ other. nat_eq other.uid item.uid) items

-- `list(dict.fromkeys(items))`, the kept items in front.
unfoldable pub dedupe : List Item → List Item → List Item
dedupe kept [] = kept
dedupe kept (item ∷ items) = dedupe (if has_item kept item then kept else kept ++ item ∷ []) items

pub record Options : Type 0 where
  pub pre_upgrade : Bool
  pub post_upgrade : Bool
  pub upgrade_deployment_modes : Option String

unfoldable pub deployment_modes : Options → List String
deployment_modes options = elim options.upgrade_deployment_modes [
  | none ↦ []
  | some modes ↦ if modes == "" then [] else split_on b',' modes
]

abbrev pub no_groups : Groups
no_groups = record { pre_upgrade_tests = []; post_upgrade_tests = []; non_upgrade_tests = [] }

unfoldable pub choose : Options → Groups → List Item
choose options g =
    if options.pre_upgrade && options.post_upgrade
    then dedupe [] (g.pre_upgrade_tests ++ g.post_upgrade_tests)
    else if options.pre_upgrade
    then g.pre_upgrade_tests
    else if options.post_upgrade
    then g.post_upgrade_tests
    else g.non_upgrade_tests

pub record Collected : Type 0 where
  pub items : List Item
  -- what `pytest_deselected` is called with; an empty list is no call
  pub deselected : List Item

unfoldable pub pytest_collection_modifyitems : Options → List Item → Collected
unfolding choose
pytest_collection_modifyitems options items =
    let chosen = choose options (group_items (deployment_modes options) no_groups items) in
    record {
      items = add_default_tier2_marker chosen;
      deselected = keep (λ item. not (has_item chosen item)) items;
    }
