-- ===== src/Cluster/Errors.antt =====
-- The errors that the look-ups raise.
pub use opendatahub_tests.Shared.{ok, err}
use opendatahub_tests.Shared.{Fallible}
use opendatahub_tests.Serving.Modes.{Error}

pub data LookupError : Type 0 where
  resource_not_found missing_resource runtime_error value_error assertion_error : LookupError
  cluster_login_error key_error attribute_error : LookupError
  -- the error of the label selector
  selector : Error → LookupError

abbrev pub Lookup {ℓ} : Type ℓ → Type ℓ
Lookup A = Fallible LookupError A
