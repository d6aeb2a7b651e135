-- ===== src/Support/Metrics.antt =====
-- utilities/monitoring.py. A query's results are what the client gives; the reading of decimals is an
-- argument.
use opendatahub_tests.Shared.{
  String, Bool, false, ◌||◌, Option, none, some, List, [], ◌∷◌, ◌++◌, ◌==◌, if◌then◌else◌, lookup,
}

-- A metric: its values, and its labels.
pub record Metric : Type 0 where
  pub value : List String
  pub labels : List (String × String)

pub data Value : Type 0 where
  missing index_error : Value
  value : String → Value

all_values : List Metric → List String
all_values [] = []
all_values (m ∷ metrics) = m.value ++ all_values metrics

unfoldable pub get_metrics_value : List Metric → Value
unfolding all_values
get_metrics_value metric_results = elim (all_values metric_results) [
  | [] ↦ missing
  | x ∷ [] ↦ index_error
  | x ∷ y ∷ rest ↦ value y
]

unfoldable pub get_metric_label : List Metric → String → Option String
get_metric_label [] label_name = none
get_metric_label (m ∷ metrics) label_name = lookup label_name m.labels

-- A sample is the field that was read; `at_least` compares the decimals of two texts.
fits : (String → String → Bool) → Bool → String → Option String → Bool
fits at_least greater_than expected none = false
fits at_least greater_than expected (some sample) =
    if greater_than then at_least sample expected else sample == expected

-- `false`: the time is up.
unfoldable pub validate_metrics_field :
    (String → String → Bool) → Bool → String → List (Option String) → Bool
unfolding fits
validate_metrics_field at_least greater_than expected [] = false
validate_metrics_field at_least greater_than expected (sample ∷ samples) =
    fits at_least greater_than expected sample
    || validate_metrics_field at_least greater_than expected samples
