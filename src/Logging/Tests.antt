-- ===== src/Logging/Tests.antt =====
-- Concrete messages and loggers, and instances of the theorems on them.
use Prim.Native.String.{count}
use opendatahub_tests.Shared.{
  ◌+◌, ◌≤◌, ◌<◌, String, ◌≡◌, refl, ◌⊎◌, true, ◌&&◌, none, some, [], ◌∷◌, join, ◌==◌, if◌then◌else◌,
  lookup, put,
}
use opendatahub_tests.Logging.Filter.{new_filter, passed}
use opendatahub_tests.Logging.Filter.Once.{occurrences, occurrences-passed-new_filter}
use opendatahub_tests.Logging.Events.{EventDict, format_event, is_basic}
use opendatahub_tests.Logging.Events.Keys.{is_metadata, lookup-format_event}
use opendatahub_tests.Logging.Loggers.{
  foreign, Logger, Loggers, add_at, setup_logging, at_once, then_step, added, made, new_logger,
  add_placeholders,
}
use opendatahub_tests.Logging.Loggers.Routed.{only_queue, at_most_queue, setup_logging-Later}
use opendatahub_tests.Logging.Banner.{separator, count-separator}

occurrences-passed-new_filter_example :
    occurrences "again" (passed new_filter ("again" ∷ "other" ∷ "again" ∷ [])) ≡ 1
occurrences-passed-new_filter_example =
    occurrences-passed-new_filter ("again" ∷ "other" ∷ "again" ∷ []) "again"

abbrev banner_event : EventDict
banner_event = ("event", "hello") ∷ ("logger", "basic") ∷ ("level", "info") ∷ []

lookup-format_event_example :
    (out : EventDict) × (format_event (some "gw0") banner_event ≡ some out)
    × (lookup "event" out ≡ (
        if is_basic banner_event && is_metadata "event"
        then none
        else if "event" == "event"
        then some (join "[" (join "gw0" (join "] " "hello")))
        else lookup "event" banner_event))
lookup-format_event_example = lookup-format_event "gw0" "hello" "event" banner_event refl refl

abbrev before : Loggers
before = record {
  root = record { level = 30; handlers = foreign 1 ∷ []; propagate = true };
  duplicates = 0;
  logger_dict =
      ("ocp_resources", some (record { level = 0; handlers = foreign 2 ∷ []; propagate = true }))
      ∷ ("kubernetes", none)
      ∷ [];
}

abbrev after : Loggers
after = setup_logging 20 7 before

abbrev got : Loggers
got = record after {
  logger_dict =
      add_placeholders ("kubernetes" ∷ "kubernetes.client" ∷ [])
        (put "kubernetes.client.rest" (some new_logger) after.logger_dict);
}

abbrev later : Loggers
later = record got { logger_dict = add_at 7 "kubernetes.client.rest" (foreign 3) got.logger_dict }

setup_logging-Later_example :
    (only_queue 7 later.root.handlers ≡ true)
    × ((name : String) (l : Logger)
        → lookup name later.logger_dict ≡ some (some l)
        → at_most_queue 7 l.handlers ≡ true)
unfolding setup_logging
setup_logging-Later_example = setup_logging-Later 20 7 before later (
    then_step got later
      (then_step after got at_once (
        made after got "kubernetes.client.rest" ("kubernetes" ∷ "kubernetes.client" ∷ []) refl
          refl))
      (added got later "kubernetes.client.rest" 3 refl))

count-separator_example :
    (count "rhoai" + 2 ≤ 12
      → (count (separator 12 "-" (some "rhoai")) ≡ 12)
        ⊎ (count (separator 12 "-" (some "rhoai")) + 1 ≡ 12))
    × (12 < count "rhoai" + 2 → count (separator 12 "-" (some "rhoai")) ≡ count "rhoai" + 2)
count-separator_example = count-separator 12 "-" "rhoai" refl refl
