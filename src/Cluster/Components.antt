-- ===== src/Cluster/Components.antt =====
-- `update_components_in_dsc` of utilities/data_science_cluster_utils.py. The state of the cluster is
-- the management state of each component.
pub mod Restored
use opendatahub_tests.Shared.{
  String, Bool, true, false, not, ◌&&◌, Option, none, some, List, [], ◌∷◌, ◌==◌, if◌then◌else◌,
  lookup, is_empty, any, keep, map, ◌≡◌, all,
}

abbrev pub States : Type 0
States = List (String × String)

-- The resource editor of the client library: it patches the components that the patch names, and on
-- leaving it puts back the states that they had before.
pub record ResourceEditor : Type 0 where
  pub enter : States → States → States
  pub leave : States → States → States → States
  pub lookup-enter :
      (patch s : States) (k : String)
      → lookup k (enter patch s) ≡ elim (lookup k patch) [ none ↦ lookup k s | some v ↦ some v ]
  pub lookup-leave :
      (patch s t : States) (k : String)
      → lookup k (leave patch s t)
        ≡ elim (lookup k patch) [ none ↦ lookup k t | some v ↦ lookup k s ]

abbrev pub component_mapping : List (String × String)
component_mapping =
    ("modelmeshserving", "ModelMeshServingReady")
    ∷ ("kserve", "KserveReady")
    ∷ ("modelregistry", "ModelRegistryReady")
    ∷ ("llamastackoperator", "LlamaStackOperatorReady")
    ∷ []

abbrev pub managed : String
managed = "Managed"

-- The patch, and the states of the components in it. `none`: the resource lacks a component.
unfoldable pub plan : States → States → Option (States × States)
plan [] dsc_components = some ([], [])
plan ((name, desired_state) ∷ components) dsc_components = elim (lookup name dsc_components) [
  | none ↦ none
  | some orig_state ↦ elim (plan components dsc_components) [
    | none ↦ none
    | some (patch, component_to_reconcile) ↦
        if orig_state == desired_state
        then some (patch, component_to_reconcile)
        else some ((name, desired_state) ∷ patch, (name, orig_state) ∷ component_to_reconcile)
  ]
]

-- `reached` is whether a condition becomes true in time. A component without a condition raises.
wait_for_component : (String → Bool) → String → Bool
wait_for_component reached component = elim (lookup component component_mapping) [
  | none ↦ false
  | some condition ↦ reached condition
]

wait_for_components : (String → Bool) → States → Bool
unfolding wait_for_component
wait_for_components reached [] = true
wait_for_components reached ((name, state) ∷ rest) =
    wait_for_component reached name && wait_for_components reached rest

wait_for_managed : (String → Bool) → States → Bool
unfolding wait_for_components wait_for_component
wait_for_managed reached component_to_reconcile =
    wait_for_components reached
      (keep (λ (c : String × String). c.1 == managed) component_to_reconcile)

-- How the context manager ends, the states that its body was entered with, if it was, and the states
-- at the end. The body changes the states, and may raise.
pub record Run : Type 0 where
  pub ok : Bool
  pub entered : Option States
  pub final_ : States

module _ (editor : ResourceEditor) (reached : States → String → Bool) where
  unfoldable pub update_components_in_dsc : States → Bool → (States → Bool × States) → States → Run
  unfolding wait_for_managed wait_for_components wait_for_component
  update_components_in_dsc components wait_for_components_state body s = elim (plan components s) [
    | none ↦ record { ok = false; entered = none; final_ = s }
    | some (patch, component_to_reconcile) ↦
        if is_empty patch
        then record { ok = (body s).0; entered = some s; final_ = (body s).1 }
        else let patched = editor.enter patch s in
          if wait_for_components_state && not (wait_for_components (reached patched) components)
          then record { ok = false; entered = none; final_ = editor.leave patch s patched }
          else let after = editor.leave patch s (body patched).1 in
            record {
              ok = (body patched).0 && wait_for_managed (reached after) component_to_reconcile;
              entered = some patched;
              final_ = after;
            }
  ]
