-- ===== src/Logging/Events.antt =====
-- The processors of an event dictionary in utilities/logger.py, as `_get_console_formatter` and
-- `_get_json_formatter` chain them.
pub mod Keys
use opendatahub_tests.Shared.{
  String, Bool, true, false, not, Option, none, some, List, [], ◌∷◌, ◌==◌, if◌then◌else◌, keep,
  lookup, put, join, given,
}

-- An event dictionary with texts as values.
abbrev pub EventDict : Type 0
EventDict = List (String × String)

-- `event_dict.pop(key, None)`
unfoldable pub pop_key : String → EventDict → EventDict
pop_key key event_dict = keep (λ (e : String × String). not (e.0 == key)) event_dict

unfoldable pub is_basic : EventDict → Bool
is_basic event_dict = elim (lookup "logger" event_dict) [
  | none ↦ false
  | some name ↦ name == "basic"
]

unfoldable pub strip_basic_metadata : EventDict → EventDict
unfolding is_basic pop_key
strip_basic_metadata event_dict =
    if is_basic event_dict
    then pop_key "level" (pop_key "timestamp" (pop_key "logger" event_dict))
    else event_dict

-- `none`: the `KeyError` of an event without a message.
unfoldable pub prepend_thread_name : String → EventDict → Option EventDict
prepend_thread_name thread_name event_dict = elim (lookup "event" event_dict) [
  | none ↦ none
  | some event ↦ some (put "event" (join "[" (join thread_name (join "] " event))) event_dict)
]

-- The first two processors of either formatter.
unfoldable pub format_event : Option String → EventDict → Option EventDict
unfolding prepend_thread_name strip_basic_metadata is_basic pop_key
format_event thread_name event_dict = elim thread_name [
  | none ↦ some (strip_basic_metadata event_dict)
  | some name ↦
      if given (some name)
      then (elim (prepend_thread_name name event_dict) [
        | none ↦ none
        | some named ↦ some (strip_basic_metadata named)
      ])
      else some (strip_basic_metadata event_dict)
]

-- The representation of a `RedactedString`.
unfoldable pub redacted_repr : String → String
redacted_repr value = "'***REDACTED***'"
