-- ===== src/Catalog/Split/Grouped.antt =====
-- What the positions tell.
use opendatahub_tests.Shared.{
  ℕ, ◌+◌, ◌≤◌, ◌≡◌, refl, Bool, true, false, not, List, [], ◌∷◌, if◌then◌else◌, is_empty, any, keep,
  map, arith,
}
use opendatahub_tests.Catalog.Split.{split_items, first_position, last_position, out_of_place}

module _ {A : Type 0} (has_it : A → Bool) where
  -- No item that lacks it stands in front of one that has it.
  abbrev pub grouped : List A → Bool
  grouped [] = true
  grouped (item ∷ items) = if has_it item then grouped items else not (any has_it items)

  abbrev pub items_of : List (ℕ × A) → List A
  items_of found = map (λ (p : ℕ × A). p.1) found

  pub items_of-split_items :
      (idx : ℕ) (items : List A)
      → (items_of (split_items has_it idx items).0 ≡ keep has_it items)
        × (items_of (split_items has_it idx items).1 ≡ keep (λ i. not (has_it i)) items)
  unfolding split_items
  items_of-split_items idx [] = (refl, refl)
  items_of-split_items idx (item ∷ items) = (
    ground (arith, items_of-split_items (idx + 1) items),
    ground (arith, items_of-split_items (idx + 1) items),
  )

  pub is_empty-split_items :
      (idx : ℕ) (items : List A)
      → is_empty (split_items has_it idx items).0 ≡ not (any has_it items)
  unfolding split_items
  is_empty-split_items idx [] = refl
  is_empty-split_items idx (item ∷ items) = ground (arith, is_empty-split_items (idx + 1) items)

  first_position-split_items :
      (idx : ℕ) (items : List A)
      → is_empty (split_items has_it idx items).1 ≡ false
      → idx ≤ first_position (split_items has_it idx items).1
  unfolding split_items first_position
  first_position-split_items idx [] h = ground arith
  first_position-split_items idx (item ∷ items) h =
      ground (arith, first_position-split_items (idx + 1) items)

  last_position-split_items :
      (low idx : ℕ) (items : List A)
      → low ≤ idx
      → low ≤ last_position low (split_items has_it idx items).0
  unfolding split_items last_position
  last_position-split_items low idx [] h = omega arith
  last_position-split_items low idx (item ∷ items) h = ground (
    arith,
    last_position-split_items low (idx + 1) items,
    last_position-split_items idx (idx + 1) items,
  )

  -- The last position is at least the first one of those split from `idx` on.
  last_position-split_items_le :
      (other idx : ℕ) (items : List A)
      → any has_it items ≡ true
      → idx ≤ last_position other (split_items has_it idx items).0
  unfolding split_items last_position
  last_position-split_items_le other idx [] h = ground arith
  last_position-split_items_le other idx (item ∷ items) h = ground (
    arith,
    last_position-split_items_le other (idx + 1) items,
    last_position-split_items idx (idx + 1) items,
  )

  last_position-default :
      (a b : ℕ) (found : List (ℕ × A))
      → is_empty found ≡ false
      → last_position a found ≡ last_position b found
  unfolding last_position
  last_position-default a b [] h = ground arith
  last_position-default a b ((idx, item) ∷ found) h = refl

  grouped_none : (items : List A) → any has_it items ≡ false → grouped items ≡ true
  grouped_none [] h = refl
  grouped_none (item ∷ items) h = ground arith

  pub out_of_place-split_items :
      (idx : ℕ) (items : List A)
      → let (found, missing) = split_items has_it idx items in
        out_of_place found missing ≡ not (grouped items)
  unfolding out_of_place split_items first_position last_position
  out_of_place-split_items idx [] = refl
  out_of_place-split_items idx (item ∷ items) =
      let (found, missing) = split_items has_it (idx + 1) items in
      ground (
        arith,
        out_of_place-split_items (idx + 1) items,
        is_empty-split_items (idx + 1) items,
        first_position-split_items (idx + 1) items,
        last_position-split_items_le 0 (idx + 1) items,
        last_position-default idx 0 found,
        grouped_none items,
      )
