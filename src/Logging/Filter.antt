-- ===== src/Logging/Filter.antt =====
-- `DuplicateFilter` of utilities/logger.py. Its state is the list of the messages that it has seen.
pub mod Once
use opendatahub_tests.Shared.{String, Bool, true, false, List, [], ◌∷◌, if◌then◌else◌, has}

pub record DuplicateFilter : Type 0 where
  msgs : List String

unfoldable pub new_filter : DuplicateFilter
new_filter = record { msgs = [] }

-- Whether the message passes, and the filter's new state.
unfoldable pub filter : DuplicateFilter → String → Bool × DuplicateFilter
filter f msg = if has f.msgs msg then (false, f) else (true, record { msgs = msg ∷ f.msgs })

-- The messages of a run that the filter lets through, in order.
unfoldable pub passed : DuplicateFilter → List String → List String
unfolding filter
passed f [] = []
passed f (msg ∷ rest) =
    let (pass, after) = filter f msg in
    let more = passed after rest in if pass then msg ∷ more else more
