-- ===== src/OpenAi/Responses/Streams.antt =====
-- What is read from a stream of events.
use text.Mathlib.TextLemmas.{cons-append}
use opendatahub_tests.Shared.{
  String, true, false, none, some, List, [], ◌∷◌, ◌==◌, if◌then◌else◌, in_text, given, ok, err, map,
  starts_with, starts_with-append, drop_chars, join, ◌≡◌, refl, arith,
}
use opendatahub_tests.Shared.Prefixes.{drop_chars-append}
use opendatahub_tests.OpenAi.Requests.{key_error, Result, chat_completions}
use opendatahub_tests.OpenAi.Responses.{
  Message, first_of, or_empty, parse_streaming_response, after_data, event_of, read_lines,
}

after_data-cons :
    (c : Prim.Native.Char.Char) (s t : String)
    → starts_with (String.◌∷◌ c s) "data: " ≡ true
    → drop_chars 6 (String.◌∷◌ c s) ≡ t
    → after_data (String.◌∷◌ c s) ≡ some t
unfolding after_data
after_data-cons c s t begins e = rw (begins, e) refl

event_of-data :
    (event : String)
    → event_of (join "data: " event) ≡ (if event == "[DONE]" then none else some event)
unfolding event_of
event_of-data event =
    let found : after_data (join "data: " event) ≡ some event = rw (cons-append "d" "ata: " event) (
      after_data-cons "d" (join "ata: " event) event
        (rw⁻¹ (cons-append "d" "ata: " event) (starts_with-append "data: " event))
        (rw⁻¹ (cons-append "d" "ata: " event) (drop_chars-append "data: " event))) in
    rw (found, event_of) refl

-- The texts one after another.
abbrev pub joined : List String → String
joined [] = ""
joined (t ∷ ts) = join t (joined ts)

-- Each message is read back from its JSON, which is not the mark of the end, and gives its token.
abbrev pub ReadAs :
    (String → Result Message) → (Message → String) → String → List (Message × String) → Type 0
ReadAs loads dumps endpoint [] = Unit
ReadAs loads dumps endpoint ((m, token) ∷ rest) =
    (loads (dumps m) ≡ ok m)
    × ((dumps m == "[DONE]") ≡ false)
    × (parse_streaming_response endpoint m ≡ ok token)
    × ReadAs loads dumps endpoint rest

abbrev pub stream : (Message → String) → List (Message × String) → List String
stream dumps [] = join "data: " "[DONE]" ∷ []
stream dumps ((m, token) ∷ rest) = join "data: " (dumps m) ∷ stream dumps rest

-- If the JSON of some messages is read back as those messages and is never the mark of the end, the
-- stream of their events, with the mark behind them, gives the messages' tokens one after another.
pub read_lines-stream :
    (loads : String → Result Message) (dumps : Message → String) (endpoint : String)
    (messages : List (Message × String))
    → ReadAs loads dumps endpoint messages
    → read_lines loads endpoint (stream dumps messages)
      ≡ ok (joined (map (λ (m : Message × String). m.1) messages))
unfolding read_lines
read_lines-stream loads dumps endpoint [] reads = ground (arith, event_of-data "[DONE]")
read_lines-stream loads dumps endpoint ((m, token) ∷ rest) (back, mark, reads, later) = ground (
  arith,
  event_of-data (dumps m),
  mark,
  back,
  reads,
  read_lines-stream loads dumps endpoint rest later,
)

-- In a chat's stream a message without choices raises a KeyError even if it reports an error; elsewhere
-- the error that it reports is its token.
pub parse_streaming_response-error :
    (endpoint error : String) (m : Message)
    → m.choices ≡ none
    → m.error ≡ some error
    → given (some error) ≡ true
    → parse_streaming_response endpoint m
      ≡ (if in_text chat_completions endpoint then err key_error else ok error)
unfolding parse_streaming_response first_of or_empty
parse_streaming_response-error endpoint error m c e g = ground (arith, c, e, g)
