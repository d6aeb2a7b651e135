-- ===== src/Catalog/Sorted/Chains.antt =====
-- A list equals its sorted version exactly if neighbours are in order.
use opendatahub_tests.Shared.{
  ◌≡◌, refl, Bool, true, ◌&&◌, List, [], ◌∷◌, arith, Bool-cases, inl, inr,
}
use opendatahub_tests.Catalog.Sorted.{IsOrder, insert_sorted, sorted, same_values, is_sorted}

module _ {V : Type 0} (le : V → V → Bool) where
  -- The value is at most the first one.
  abbrev pub below : V → List V → Bool
  below v [] = true
  below v (w ∷ ws) = le v w

  -- Each value is at most the next one.
  abbrev pub chain : List V → Bool
  chain [] = true
  chain (v ∷ vs) = below v vs && chain vs

module _ {V : Type 0} {le : V → V → Bool} (order : IsOrder le) where
  below-insert_sorted :
      (u v : V) (ws : List V)
      → le u v ≡ true
      → below le u ws ≡ true
      → below le u (insert_sorted le v ws) ≡ true
  unfolding insert_sorted
  below-insert_sorted u v [] uv uw = uv
  below-insert_sorted u v (w ∷ ws) uv uw = ground arith

  chain-insert_sorted :
      (v : V) (ws : List V) → chain le ws ≡ true → chain le (insert_sorted le v ws) ≡ true
  unfolding insert_sorted
  chain-insert_sorted v [] h = refl
  chain-insert_sorted v (w ∷ ws) h =
      ground (arith, order.total v w, chain-insert_sorted v ws, below-insert_sorted w v ws)

  chain-sorted : (vs : List V) → chain le (sorted le vs) ≡ true
  unfolding sorted
  chain-sorted [] = refl
  chain-sorted (v ∷ vs) = chain-insert_sorted v (sorted le vs) (chain-sorted vs)

  insert_sorted-below :
      (v : V) (ws : List V) → below le v ws ≡ true → insert_sorted le v ws ≡ v ∷ ws
  unfolding insert_sorted
  insert_sorted-below v [] h = refl
  insert_sorted-below v (w ∷ ws) h = ground arith

  sorted_of_chain : (vs : List V) → chain le vs ≡ true → sorted le vs ≡ vs
  unfolding sorted
  sorted_of_chain [] h = refl
  sorted_of_chain (v ∷ vs) h =
      rw (sorted_of_chain vs (ground arith)) (insert_sorted-below v vs (ground arith))

  same_values_refl : (vs : List V) → same_values le vs vs ≡ true
  unfolding same_values
  same_values_refl [] = refl
  same_values_refl (v ∷ vs) = ground (arith, order.total v v, same_values_refl vs)

  chain_of_same :
      (vs ws : List V) → same_values le vs ws ≡ true → chain le ws ≡ true → chain le vs ≡ true
  unfolding same_values
  chain_of_same [] ws s h = refl
  chain_of_same (v ∷ vs) [] s h = ground arith
  chain_of_same (v ∷ []) (w ∷ ws) s h = refl
  chain_of_same (v ∷ u ∷ vs) (w ∷ []) s h = ground arith
  chain_of_same (v ∷ u ∷ vs) (w ∷ x ∷ ws) s h =
      ground (arith, chain_of_same (u ∷ vs) (x ∷ ws), order.le_trans v w x, order.le_trans v x u)

  -- A list is found sorted exactly if each value is at most the next one.
  pub is_sorted-eq-chain : (vs : List V) → is_sorted le vs ≡ chain le vs
  unfolding is_sorted
  is_sorted-eq-chain vs = elim (Bool-cases (chain le vs)) [
    | inl h ↦ rw (sorted_of_chain vs h, h) (same_values_refl vs)
    | inr h ↦ ground (arith, chain_of_same vs (sorted le vs), chain-sorted vs)
  ]
