-- ===== src/Catalog/Properties/Verified.antt =====
-- When a list of items passes.
use opendatahub_tests.Shared.{
  ℕ, String, ◌≡◌, refl, ◌∙◌, ap, Bool, true, false, ◌&&◌, not, List, [], ◌∷◌, ◌==◌, map,
  if◌then◌else◌, leb, is_empty, keep, arith, Option-cases, Bool-cases, inl, inr,
}
use opendatahub_tests.Catalog.Sorted.{IsOrder, is_sorted, sorted, same_values}
use opendatahub_tests.Catalog.Sorted.Chains.{chain, is_sorted-eq-chain}
use opendatahub_tests.Catalog.Split.{split_items, out_of_place}
use opendatahub_tests.Catalog.Split.Grouped.{
  grouped, items_of-split_items, out_of_place-split_items,
}
use opendatahub_tests.Catalog.Properties.{
  CatalogItem, value_of, has_value, gather_values, ordered_by, items_with_property_sorted,
  items_without_property_sorted, verify_custom_properties_sorted,
}

pub leb-IsOrder : IsOrder leb
leb-IsOrder = record { total = λ a b. ground arith; le_trans = λ a b c ab bc. ground arith }

ordered_by-IsOrder :
    {V : Type 0} {le : V → V → Bool} (sort_order : String)
    → IsOrder le
    → IsOrder (ordered_by le sort_order)
ordered_by-IsOrder {le} sort_order order = elim (Bool-cases (sort_order == "DESC")) [
  | inl e ↦ record {
    total = λ a b. ground (arith, order.total b a);
    le_trans = λ a b c ab bc. ground (arith, order.le_trans c b a);
  }
  | inr e ↦ record {
    total = λ a b. ground (arith, order.total a b);
    le_trans = λ a b c ab bc. ground (arith, order.le_trans a b c);
  }
]

gather_values-keep :
    {V : Type 0} (name type_ : String) (items : List (CatalogItem V))
    → gather_values name type_ (keep (has_value name type_) items) ≡ gather_values name type_ items
unfolding gather_values has_value
gather_values-keep name type_ [] = refl
gather_values-keep name type_ (item ∷ items) = elim (Option-cases (value_of name type_ item)) [
  | inl e ↦ ground (arith, gather_values-keep name type_ items)
  | inr (value, e) ↦ ground (arith, gather_values-keep name type_ items)
]

map-ids :
    {V : Type 0} (items : List (ℕ × CatalogItem V))
    → map (λ (p : ℕ × CatalogItem V). p.1.id) items
      ≡ map (λ (i : CatalogItem V). i.id) (map (λ (p : ℕ × CatalogItem V). p.1) items)
map-ids [] = refl
map-ids (item ∷ items) = ap (λ ids. item.1.id ∷ ids) (map-ids items)

items_with_property_sorted-split :
    {V : Type 0} {le : V → V → Bool} (order : IsOrder le) (name type_ sort_order : String)
    (items : List (CatalogItem V))
    → items_with_property_sorted le name type_ sort_order
        (split_items (has_value name type_) 0 items).0
      ≡ chain (ordered_by le sort_order) (gather_values name type_ items)
unfolding items_with_property_sorted
items_with_property_sorted-split order name type_ sort_order items = rw (
  (items_of-split_items (has_value name type_) 0 items).0,
  gather_values-keep name type_ items,
  is_sorted-eq-chain (ordered_by-IsOrder sort_order order) (gather_values name type_ items),
)

pub items_without_property_sorted-split :
    {V : Type 0} (le : V → V → Bool) (name type_ sort_order : String) (p : CatalogItem V → Bool)
    (items : List (CatalogItem V))
    → items_without_property_sorted le name type_ sort_order (split_items p 0 items).1
      ≡ chain leb (map (λ (i : CatalogItem V). i.id) (keep (λ i. not (p i)) items))
unfolding items_without_property_sorted
items_without_property_sorted-split le name type_ sort_order p items = rw (
  map-ids (split_items p 0 items).1,
  (items_of-split_items p 0 items).1,
  is_sorted-eq-chain leb-IsOrder (map (λ (i : CatalogItem _). i.id) (keep (λ i. not (p i)) items)),
)

items_with_property_sorted_none :
    {V : Type 0} (le : V → V → Bool) (name type_ sort_order : String)
    (found : List (ℕ × CatalogItem V))
    → is_empty found ≡ true
    → items_with_property_sorted le name type_ sort_order found ≡ true
unfolding items_with_property_sorted gather_values is_sorted sorted same_values
items_with_property_sorted_none le name type_ sort_order [] h = refl
items_with_property_sorted_none le name type_ sort_order (item ∷ found) h = ground arith

pub items_without_property_sorted_none :
    {V : Type 0} (le : V → V → Bool) (name type_ sort_order : String)
    (missing : List (ℕ × CatalogItem V))
    → is_empty missing ≡ true
    → items_without_property_sorted le name type_ sort_order missing ≡ true
unfolding items_without_property_sorted is_sorted sorted same_values
items_without_property_sorted_none le name type_ sort_order [] h = refl
items_without_property_sorted_none le name type_ sort_order (item ∷ missing) h = ground arith

-- The guards on empty groups make no difference.
pub verified :
    (out no_found no_missing found_ok missing_ok : Bool)
    → (no_found ≡ true → found_ok ≡ true)
    → (no_missing ≡ true → missing_ok ≡ true)
    → (if out
        then false
        else if not no_found && not found_ok
        then false
        else if not no_missing && not missing_ok
        then false
        else true)
      ≡ (not out && found_ok && missing_ok)
verified out no_found no_missing found_ok missing_ok f m = ground arith

-- For values with a total order, the items pass exactly if no item without the property stands in front of one with it, the
-- values of the property are in the order asked for, and the ids of the items without it ascend.
pub verify_custom_properties_sorted-eq :
    {V : Type 0} {le : V → V → Bool} (order : IsOrder le) (name type_ sort_order : String)
    (items : List (CatalogItem V))
    → verify_custom_properties_sorted le name type_ sort_order items ≡ (
        grouped (has_value name type_) items
        && chain (ordered_by le sort_order) (gather_values name type_ items)
        && chain leb
            (map (λ (i : CatalogItem V). i.id) (keep (λ i. not (has_value name type_ i)) items)))
unfolding verify_custom_properties_sorted items_with_property_sorted items_without_property_sorted
verify_custom_properties_sorted-eq {V} {le} order name type_ sort_order items =
    let p : CatalogItem V → Bool = has_value name type_ in
    let (found, missing) = split_items p 0 items in
    verified (out_of_place found missing) (is_empty found) (is_empty missing)
      (items_with_property_sorted le name type_ sort_order found)
      (items_without_property_sorted le name type_ sort_order missing)
      (items_with_property_sorted_none le name type_ sort_order found)
      (items_without_property_sorted_none le name type_ sort_order missing)
    ∙ ground (
      arith,
      out_of_place-split_items p 0 items,
      items_with_property_sorted-split order name type_ sort_order items,
      items_without_property_sorted-split le name type_ sort_order p items,
    )
