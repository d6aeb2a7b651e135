-- ===== src/Session/Markers.antt =====
-- `_add_default_tier2_marker` of conftest.py.
pub mod Tiers
use opendatahub_tests.Shared.{
  ℕ, String, Bool, ◌&&◌, not, List, [], ◌∷◌, ◌++◌, if◌then◌else◌, has, any, starts_with,
}

-- A collected test: its identity, its keywords, and the names of its markers, nearest first.
pub record Item : Type 0 where
  pub uid : ℕ
  pub nodeid : String
  pub keywords : List String
  pub markers : List String

abbrev pub exclude_markers_from_default_tier2 : List String
exclude_markers_from_default_tier2 =
    "smoke" ∷ "tier1" ∷ "tier2" ∷ "tier3" ∷ "pre_upgrade" ∷ "post_upgrade" ∷ []

abbrev pub default_tier2_marker_test_paths : List String
default_tier2_marker_test_paths =
    "tests/model_registry" ∷ "tests/model_explainability" ∷ "tests/model_serving/maas_billing" ∷ []

unfoldable pub in_default_paths : Item → Bool
in_default_paths item = any (starts_with item.nodeid) default_tier2_marker_test_paths

unfoldable pub has_tier : Item → Bool
has_tier item = any (has exclude_markers_from_default_tier2) item.markers

-- One round of the loop: `add_marker` puts the marker behind the item's own.
unfoldable pub mark_item : Item → Item
mark_item item =
    if not (in_default_paths item)
    then item
    else if has_tier item
    then item
    else record item { markers = item.markers ++ "tier2" ∷ [] }

unfoldable pub add_default_tier2_marker : List Item → List Item
add_default_tier2_marker [] = []
add_default_tier2_marker (item ∷ items) = mark_item item ∷ add_default_tier2_marker items
