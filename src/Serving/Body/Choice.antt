-- ===== src/Serving/Body/Choice.antt =====
-- What the configuration and the arguments decide of a request.
use opendatahub_tests.Shared.{
  String, ◌≡◌, ◌≢◌, Bool, true, false, Option, none, some, arith, eq_iff,
}
use opendatahub_tests.Serving.Modes.{ok}
use opendatahub_tests.Serving.Body.{InferenceConfig, inference_input}

-- What is sent is the input that was passed, even an empty one, unless the default is asked for, and
-- is not empty if the default is asked for.
pub inference_input-ok :
    (config : InferenceConfig) (inference_type : String) (input : Option String)
    (use_default : Bool) (sent : String)
    → inference_input config inference_type input use_default ≡ ok sent
    → ((use_default ≡ false) → input ≡ some sent) × ((use_default ≡ true) → sent ≢ "")
unfolding inference_input
inference_input-ok config inference_type input true sent h =
    ((λ e. ground arith), (λ e s. ground (arith, eq_iff sent "")))
inference_input-ok config inference_type none false sent h = (ground arith, ground arith)
inference_input-ok config inference_type (some input) false sent h = (ground arith, ground arith)
