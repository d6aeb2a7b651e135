-- ===== src/OpenAi/Responses.antt =====
-- The answers to the requests in utilities/plugins/openai_plugin.py, and the requests themselves. What
-- the server answers is an argument.
pub mod Streams
use Prim.Native.String
use opendatahub_tests.Shared.{
  ℕ, String, Bool, true, false, not, ◌&&◌, ◌||◌, Option, none, some, List, [], ◌∷◌, ◌==◌,
  if◌then◌else◌, lookup, put, in_text, given, Fallible, ok, err, ◌>>=◌, map, keep, has, starts_with,
  drop_chars, join,
}
use opendatahub_tests.OpenAi.Requests.{
  ClientError, key_error, index_error, json_error, request_error, Result, chat_completions,
  embeddings, audio_transcription, Query, Body, construct_request_data, audio_data,
}

-- A choice of an answer: its delta, which may have a content, and its text.
pub record Choice : Type 0 where
  pub delta : Option (Option String)
  pub text : Option String

pub record Message : Type 0 where
  pub choices : Option (List Choice)
  pub embedding_data : Option (List String)
  pub text : Option String
  pub error : Option String

pub data Answer : Type 0 where
  choice : Choice → Answer
  embedding : String → Answer
  transcription : String → Answer

-- `message[key][0]`
first_of {ℓ} : {A : Type ℓ} → Option (List A) → Result A
first_of none = err key_error
first_of (some []) = err index_error
first_of (some (x ∷ rest)) = ok x

unfoldable pub parse_response : String → Message → Result Answer
unfolding first_of
parse_response endpoint message =
    if in_text chat_completions endpoint
    then (do c ← first_of message.choices; ok (choice c))
    else if in_text embeddings endpoint
    then (do e ← first_of message.embedding_data; ok (embedding e))
    else if in_text audio_transcription endpoint
    then (elim message.text [ none ↦ err key_error | some t ↦ ok (transcription t) ])
    else (do c ← first_of message.choices; ok (choice c))

-- `choice["delta"]`, with the content that is put in where it lacks one.
delta_of : Choice → Result String
delta_of c = elim c.delta [
  | none ↦ err key_error
  | some none ↦ ok ""
  | some (some content) ↦ ok content
]

or_empty : Option String → String
or_empty none = ""
or_empty (some t) = t

-- For a chat, the delta is read before the error of the message.
unfoldable pub parse_streaming_response : String → Message → Result String
unfolding first_of delta_of or_empty
parse_streaming_response endpoint message =
    if in_text chat_completions endpoint
    then (do
      c ← first_of message.choices
      content ← delta_of c
      ok (if given message.error then or_empty message.error else content))
    else if given message.error
    then ok (or_empty message.error)
    else (do c ← first_of message.choices; ok (or_empty c.text))

-- `line.partition(b"data: ")`: what follows the first such text.
after_data : String → Option String
after_data String.[] = none
after_data (String.◌∷◌ c s) =
    let later = after_data s in
    if starts_with (String.◌∷◌ c s) "data: " then some (drop_chars 6 (String.◌∷◌ c s)) else later

unfoldable pub event_of : String → Option String
unfolding after_data
event_of line = elim (after_data line) [
  | none ↦ none
  | some event ↦ if event == "[DONE]" then none else some event
]

-- `loads` reads the JSON of an event.
unfoldable pub read_lines : (String → Result Message) → String → List String → Result String
unfolding event_of after_data parse_streaming_response first_of delta_of or_empty
read_lines loads endpoint [] = ok ""
read_lines loads endpoint (line ∷ lines) = elim (event_of line) [
  | none ↦ read_lines loads endpoint lines
  | some event ↦ (do
    message ← loads event
    token ← parse_streaming_response endpoint message
    rest ← read_lines loads endpoint lines
    ok (join token rest))
]

-- One attempt of each request. `post` gives the server's answer to a body.
unfoldable pub request_http :
    Option String → (Body → Result Message) → String → Query → Body → Result Answer
unfolding construct_request_data parse_response first_of
request_http model_name post endpoint query extra_param = do
  body ← construct_request_data model_name endpoint query extra_param false
  message ← post body
  parse_response endpoint message

unfoldable pub streaming_request_http :
    Option String
    → (Body → Result (List String))
    → (String → Result Message)
    → String
    → Query
    → Body
    → Result String
unfolding construct_request_data read_lines
streaming_request_http model_name post loads endpoint query extra_param = do
  body ← construct_request_data model_name endpoint query extra_param true
  lines ← post body
  read_lines loads endpoint lines

unfoldable pub request_audio : (Body → Result Message) → String → String → String → Result Answer
unfolding audio_data parse_response first_of
request_audio post endpoint model_name language = do
  message ← post (audio_data model_name language)
  parse_response endpoint message

-- An item of a list of models: its plain values, and its permissions, where it has any.
pub record Item : Type 0 where
  pub values : Query
  pub permission : Option (List Query)

unfoldable pub without_keys : List String → Query → Query
without_keys keys values = keep (λ (v : String × String). not (has keys v.0)) values

unfoldable pub remove_keys : List String → List Item → List Item
unfolding without_keys
remove_keys keys_to_remove items =
    map
      (λ (i : Item). record {
        values = without_keys ("created" ∷ []) i.values;
        permission = elim i.permission [
          | none ↦ none
          | some permissions ↦ some (map (without_keys keys_to_remove) permissions)
        ];
      })
      items

-- The data of the answer, if there are any; an error is logged and gives nothing.
unfoldable pub get_request_http : Result (Option (List Item)) → Option (List Item)
unfolding remove_keys without_keys
get_request_http (err raised) = none
get_request_http (ok none) = some []
get_request_http (ok (some items)) = some (remove_keys ("created" ∷ "id" ∷ []) items)
