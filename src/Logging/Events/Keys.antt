-- ===== src/Logging/Events/Keys.antt =====
-- The keys of an event after the processors.
use opendatahub_tests.Shared.{
  String, ◌≡◌, refl, true, Bool, ◌&&◌, ◌||◌, none, some, [], ◌∷◌, ◌==◌, if◌then◌else◌, lookup, put,
  join, given, arith, eq_iff, lookup-put,
}
use opendatahub_tests.Logging.Events.{
  EventDict, pop_key, is_basic, strip_basic_metadata, prepend_thread_name, format_event,
}

lookup-pop_key :
    (key k : String) (e : EventDict)
    → lookup k (pop_key key e) ≡ (if key == k then none else lookup k e)
unfolding pop_key
lookup-pop_key key k [] = ground arith
lookup-pop_key key k ((j, v) ∷ e) =
    ground (arith, eq_iff key k, eq_iff j k, eq_iff j key, lookup-pop_key key k e)

-- The keys that an event of the basic logger loses.
pub is_metadata : String → Bool
is_metadata k = "logger" == k || "timestamp" == k || "level" == k

lookup-strip_basic_metadata :
    (k : String) (e : EventDict)
    → lookup k (strip_basic_metadata e) ≡ (if is_basic e && is_metadata k then none else lookup k e)
unfolding strip_basic_metadata is_metadata
lookup-strip_basic_metadata k e = ground (
  arith,
  lookup-pop_key "logger" k e,
  lookup-pop_key "timestamp" k (pop_key "logger" e),
  lookup-pop_key "level" k (pop_key "timestamp" (pop_key "logger" e)),
)

is_basic-put_event : (v : String) (e : EventDict) → is_basic (put "event" v e) ≡ is_basic e
unfolding is_basic
is_basic-put_event v e = rw (lookup-put "event" "logger" v e, is_basic) refl

-- With a thread name, an event that has a message keeps every key and value, but for the message,
-- which is prefixed with the name in brackets, and for the logger, the time and the level, which an
-- event of the basic logger loses.
pub lookup-format_event :
    (thread message k : String) (e : EventDict)
    → given (some thread) ≡ true
    → lookup "event" e ≡ some message
    → (out : EventDict) × (format_event (some thread) e ≡ some out)
      × (lookup k out ≡ (
          if is_basic e && is_metadata k
          then none
          else if "event" == k
          then some (join "[" (join thread (join "] " message)))
          else lookup k e))
unfolding format_event prepend_thread_name
lookup-format_event thread message k e g h =
    let named : EventDict = put "event" (join "[" (join thread (join "] " message))) e in
    (
      strip_basic_metadata named,
      rw (g, h) refl,
      rw
          (
            lookup-strip_basic_metadata k named,
            lookup-put "event" k (join "[" (join thread (join "] " message))) e,
            is_basic-put_event (join "[" (join thread (join "] " message))) e,
          )
          refl,
    )
