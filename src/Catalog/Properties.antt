-- ===== src/Catalog/Properties.antt =====
-- `verify_custom_properties_sorted` of sorting/utils.py. The property's field comes split into its
-- name and the type of its value, as `rsplit` gives them; an item's id is the number that `int`
-- reads from it.
pub mod Verified
use opendatahub_tests.Shared.{
  ℕ, String, Bool, true, false, ◌&&◌, ◌||◌, not, Option, none, some, List, [], ◌∷◌, ◌==◌, map,
  if◌then◌else◌, leb, lookup, is_empty,
}
use opendatahub_tests.Catalog.Sorted.{is_sorted}
use opendatahub_tests.Catalog.Split.{split_items, out_of_place}

-- What a custom property is: a dictionary from types to values, of which some are `None`, or
-- anything else.
pub data Property (V : Type 0) : Type 0 where
  dictionary : List (String × Option V) → Property V
  other : Property V

pub record CatalogItem (V : Type 0) : Type 0 where
  pub id : ℕ
  pub custom_properties : List (String × Property V)

module _ {V : Type 0} (property_name value_type : String) where
  property_value : Property V → Option V
  property_value (dictionary values) = elim (lookup value_type values) [
    | none ↦ none
    | some value ↦ value
  ]
  property_value other = none

  -- The value that the item is sorted by, if it has one.
  unfoldable pub value_of : CatalogItem V → Option V
  unfolding property_value
  value_of item = elim (lookup property_name item.custom_properties) [
    | none ↦ none
    | some prop ↦ property_value prop
  ]

  unfoldable pub has_value : CatalogItem V → Bool
  has_value item = elim (value_of item) [ none ↦ false | some value ↦ true ]

  -- The values of items that all have one.
  unfoldable pub gather_values : List (CatalogItem V) → List V
  gather_values [] = []
  gather_values (item ∷ items) =
      let rest = gather_values items in
      elim (value_of item) [ none ↦ rest | some value ↦ value ∷ rest ]

-- The order that `reverse` turns round. Equal values are not told apart by the comparison, so that
-- the order among them does not matter.
abbrev pub ordered_by {ℓ} : {V : Type ℓ} → (V → V → Bool) → String → V → V → Bool
ordered_by le sort_order a b = if sort_order == "DESC" then le b a else le a b

module _ {V : Type 0} (le : V → V → Bool) (property_name value_type sort_order : String) where
  items_with_property_sorted : List (ℕ × CatalogItem V) → Bool
  items_with_property_sorted items =
      is_sorted (ordered_by le sort_order)
        (gather_values property_name value_type (map (λ (p : ℕ × CatalogItem V). p.1) items))

  unfoldable pub items_without_property_sorted : List (ℕ × CatalogItem V) → Bool
  items_without_property_sorted items =
      is_sorted leb (map (λ (p : ℕ × CatalogItem V). p.1.id) items)

  unfoldable pub verify_custom_properties_sorted : List (CatalogItem V) → Bool
  unfolding items_with_property_sorted items_without_property_sorted
  verify_custom_properties_sorted items =
      let (found, missing) = split_items (has_value property_name value_type) 0 items in
      if out_of_place found missing
      then false
      else if not (is_empty found) && not (items_with_property_sorted found)
      then false
      else if not (is_empty missing) && not (items_without_property_sorted missing)
      then false
      else true
