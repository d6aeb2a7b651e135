-- ===== src/OpenAi/Tests.antt =====
-- Concrete streams, and instances of the theorems on them.
use opendatahub_tests.Shared.{String, none, some, [], ◌∷◌, in_text, ok, err, ◌≡◌, refl}
use opendatahub_tests.OpenAi.Requests.{Result, key_error}
use opendatahub_tests.OpenAi.Responses.{Message, read_lines, parse_streaming_response}
use opendatahub_tests.OpenAi.Responses.Streams.{
  joined, stream, read_lines-stream, parse_streaming_response-error,
}

abbrev word : Message
word = record {
  choices = some (record { delta = some (some "hi"); text = none } ∷ []);
  embedding_data = none;
  text = none;
  error = none;
}

abbrev refusal : Message
refusal = record { choices = none; embedding_data = none; text = none; error = some "no tokens" }

-- A JSON library that knows one message by its text.
abbrev loads : String → Result Message
loads event = ok word

abbrev dumps : Message → String
dumps m = "word"

read_lines-stream_example :
    read_lines loads "/v1/chat/completions" (stream dumps ((word, "hi") ∷ (word, "hi") ∷ []))
    ≡ ok (joined ("hi" ∷ "hi" ∷ []))
unfolding parse_streaming_response in_text
read_lines-stream_example =
    read_lines-stream loads dumps "/v1/chat/completions" ((word, "hi") ∷ (word, "hi") ∷ [])
      (refl, refl, refl, (refl, refl, refl, tt))

parse_streaming_response-error_example :
    parse_streaming_response "/v1/chat/completions" refusal ≡ err key_error
unfolding in_text
parse_streaming_response-error_example =
    parse_streaming_response-error "/v1/chat/completions" "no tokens" refusal refl refl refl
