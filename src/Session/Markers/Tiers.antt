-- ===== src/Session/Markers/Tiers.antt =====
-- What the default marker does to a session's tests.
use opendatahub_tests.Shared.{
  ◌≡◌, true, ◌||◌, not, List, [], ◌∷◌, arith, refl, has, all, keep, any-append,
}
use opendatahub_tests.Session.Markers.{
  Item, in_default_paths, has_tier, mark_item, add_default_tier2_marker,
  exclude_markers_from_default_tier2,
}

has_tier-mark_item : (item : Item) → in_default_paths item ≡ true → has_tier (mark_item item) ≡ true
unfolding mark_item has_tier
has_tier-mark_item item h =
    ground (arith, any-append (has exclude_markers_from_default_tier2) item.markers ("tier2" ∷ []))

mark_item_idem : (item : Item) → mark_item (mark_item item) ≡ mark_item item
unfolding mark_item has_tier in_default_paths
mark_item_idem item =
    ground (arith, any-append (has exclude_markers_from_default_tier2) item.markers ("tier2" ∷ []))

in_default_paths-mark_item :
    (item : Item) → in_default_paths (mark_item item) ≡ in_default_paths item
unfolding mark_item in_default_paths
in_default_paths-mark_item item = ground arith

in_default_paths-other :
    (items : List Item)
    → keep (λ i. not (in_default_paths i)) (add_default_tier2_marker items)
      ≡ keep (λ i. not (in_default_paths i)) items
unfolding add_default_tier2_marker mark_item
in_default_paths-other [] = refl
in_default_paths-other (item ∷ items) =
    ground (arith, in_default_paths-other items, in_default_paths-mark_item item)

-- Afterwards every test of the listed components has a tier, smoke or upgrade marker, the other
-- tests are as they were, and a second pass changes nothing.
pub add_default_tier2_marker_lem :
    (items : List Item)
    → let marked = add_default_tier2_marker items in
      (all (λ i. not (in_default_paths i) || has_tier i) marked ≡ true)
      × (keep (λ i. not (in_default_paths i)) marked ≡ keep (λ i. not (in_default_paths i)) items)
      × (add_default_tier2_marker marked ≡ marked)
unfolding add_default_tier2_marker
add_default_tier2_marker_lem [] = (refl, refl, refl)
add_default_tier2_marker_lem (item ∷ items) =
    let (marked, _, same) = add_default_tier2_marker_lem items in
    (
      ground (arith, has_tier-mark_item item, in_default_paths-mark_item item),
      in_default_paths-other (item ∷ items),
      cc (mark_item_idem item),
    )
