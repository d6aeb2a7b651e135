-- ===== src/Cluster/Reconciled.antt =====
-- `get_dsc_ready_condition` and `wait_for_dsc_reconciliation` of
-- utilities/data_science_cluster_utils.py.
use opendatahub_tests.Shared.{
  String, Bool, true, false, not, ◌||◌, Option, none, some, List, [], ◌∷◌, ◌==◌, if◌then◌else◌,
  first,
}

pub record Condition : Type 0 where
  pub type_ : String
  pub status : String
  pub last_transition_time : Option String

unfoldable pub get_dsc_ready_condition : List Condition → Option Condition
get_dsc_ready_condition conditions = first (λ c. c.type_ == "Ready") conditions

pub same_time : Option String → Option String → Bool
same_time none none = true
same_time none (some t) = false
same_time (some s) none = false
same_time (some s) (some t) = s == t

-- One call.
unfoldable pub is_reconciled : Option String → List Condition → Bool
unfolding get_dsc_ready_condition same_time
is_reconciled baseline_time conditions =
    let ready_condition = get_dsc_ready_condition conditions in
    let current_time = elim ready_condition as (λ _. Option String) [
      | none ↦ none
      | some c ↦ c.last_transition_time
    ] in
    let dsc_reconciling = not (same_time current_time baseline_time) in
    let dsc_ready = elim ready_condition as (λ _. Bool) [
      | none ↦ false
      | some c ↦ c.status == "True"
    ] in
    if not dsc_reconciling then false else if not dsc_ready then false else true

-- The retried calls, each with the conditions that it reads. `false`: the time is up.
unfoldable pub wait_for_dsc_reconciliation : Option String → List (List Condition) → Bool
unfolding is_reconciled get_dsc_ready_condition same_time
wait_for_dsc_reconciliation baseline_time [] = false
wait_for_dsc_reconciliation baseline_time (conditions ∷ samples) =
    is_reconciled baseline_time conditions || wait_for_dsc_reconciliation baseline_time samples
