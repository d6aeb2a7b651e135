-- ===== src/OpenAi/Requests.antt =====
-- The bodies of the requests in utilities/plugins/openai_plugin.py.
use opendatahub_tests.Shared.{
  ℕ, String, Bool, Option, none, some, List, [], ◌∷◌, ◌==◌, if◌then◌else◌, lookup, put, in_text,
  Fallible, ok, err, ◌>>=◌,
}

pub data ClientError : Type 0 where
  key_error index_error json_error request_error : ClientError

abbrev pub Result {ℓ} : Type ℓ → Type ℓ
Result A = Fallible ClientError A

abbrev pub chat_completions : String
chat_completions = "/v1/chat/completions"

abbrev pub embeddings : String
embeddings = "/v1/embeddings"

abbrev pub audio_transcription : String
audio_transcription = "/v1/audio/transcriptions"

abbrev pub Query : Type 0
Query = List (String × String)

-- A value of a body; `tenths` are decimals.
pub data Value : Type 0 where
  text : String → Value
  number tenths : ℕ → Value
  flag : Bool → Value
  messages : Query → Value

abbrev pub Body : Type 0
Body = List (String × Value)

-- `query["text"]`
query_text : Query → Result Value
query_text query = elim (lookup "text" query) [ none ↦ err key_error | some t ↦ ok (text t) ]

endpoint_data : String → Query → Bool → Result Body
unfolding query_text
endpoint_data endpoint query streaming =
    if in_text chat_completions endpoint
    then ok (
        ("messages", messages query)
        ∷ ("temperature", number 0)
        ∷ ("seed", number 1037)
        ∷ ("stream", flag streaming)
        ∷ [])
    else if in_text embeddings endpoint
    then (do input ← query_text query; ok (("input", input) ∷ []))
    else (do
      prompt ← query_text query
      ok (
          ("prompt", prompt)
          ∷ ("temperature", number 0)
          ∷ ("top_p", tenths 9)
          ∷ ("seed", number 1037)
          ∷ ("stream", flag streaming)
          ∷ []))

-- `data.update(extra)`
unfoldable pub update : Body → Body → Body
update [] body = body
update ((key, value) ∷ extra) body = update extra (put key value body)

add_model : Option String → Body → Body
add_model none body = body
add_model (some model_name) body =
    if model_name == "" then body else put "model" (text model_name) body

-- Without extra parameters `extra_param` is empty.
unfoldable pub construct_request_data : Option String → String → Query → Body → Bool → Result Body
unfolding endpoint_data query_text add_model update
construct_request_data model_name endpoint query extra_param streaming = do
  body ← endpoint_data endpoint query streaming
  ok (update extra_param (add_model model_name body))

-- The form of an audio request.
unfoldable pub audio_data : String → String → Body
audio_data model_name language =
    ("model", text model_name) ∷ ("response_format", text "json") ∷ ("language", text language) ∷ []
