-- ===== src/Grpc.antt =====
-- utilities/plugins/tgis_grpc_plugin.py: the client of the text generation service. The calls of the
-- stub, and the look-up of a server's certificate, are arguments.
pub mod Streams
mod Tests
use Prim.Native.String
use opendatahub_tests.Shared.{
  ℕ, String, Bool, true, false, not, ◌&&◌, Option, none, some, List, [], ◌∷◌, ◌++◌, ◌==◌,
  if◌then◌else◌, nat_eq, join, Fallible, ok, err,
}

pub record Plugin : Type 0 where
  pub host : String
  pub model_name : String
  pub streaming : Bool
  pub use_tls : Bool

-- With the certificate that the channel trusts, or without one.
pub data Channel : Type 0 where
  secure_channel : String → String → Channel
  insecure_channel : String → Channel

channel_credentials : (String → ℕ → String) → Plugin → Option String
channel_credentials get_server_certificate p =
    if p.use_tls then some (get_server_certificate p.host 443) else none

unfoldable pub create_channel : (String → ℕ → String) → Plugin → Channel
unfolding channel_credentials
create_channel get_server_certificate p = elim (channel_credentials get_server_certificate p) [
  | none ↦ insecure_channel p.host
  | some cert ↦ secure_channel p.host cert
]

-- `generated_tokens` are the options of the response, which only a single request has.
pub record Request : Type 0 where
  pub model_id : String
  pub texts : List (Option String)
  pub method : String
  pub seed : ℕ
  pub generated_tokens : Option Bool

batched_request : Plugin → Option String → Request
batched_request p text = record {
  model_id = p.model_name;
  texts = text ∷ [];
  method = "GREEDY";
  seed = 1037;
  generated_tokens = none;
}

unfoldable pub single_request : Plugin → Option String → Request
single_request p text = record {
  model_id = p.model_name;
  texts = text ∷ [];
  method = "GREEDY";
  seed = 1037;
  generated_tokens = some true;
}

-- A message of the service; the reason 0 is that nothing has stopped yet, and `tokens` says that it has
-- any.
pub record Message : Type 0 where
  pub tokens : Bool
  pub text : String
  pub stop_reason : ℕ
  pub input_token_count : ℕ
  pub generated_token_count : ℕ

pub record Output : Type 0 where
  pub input_tokens : ℕ
  pub stop_reason : ℕ
  pub output_text : String
  pub output_tokens : ℕ

pub data ClientError : Type 0 where
  index_error : ClientError

abbrev pub Result {ℓ} : Type ℓ → Type ℓ
Result A = Fallible ClientError A

-- What a call of the stub gives: an answer, or the details of an error.
pub data Call {ℓ} (A : Type ℓ) : Type ℓ where
  answered : A → Call A
  rpc_error : String → Call A

output_of : String → Message → Output
output_of text m = record {
  input_tokens = m.input_token_count;
  stop_reason = m.stop_reason;
  output_text = text;
  output_tokens = m.generated_token_count;
}

-- An error is logged, and there is no output.
unfoldable pub make_grpc_request :
    (String → ℕ → String)
    → (Channel → Request → Call (List Message))
    → Plugin
    → Option String
    → Result (Option Output)
unfolding create_channel batched_request output_of
make_grpc_request get_server_certificate generate p text =
    elim (generate (create_channel get_server_certificate p) (batched_request p text)) [
      | rpc_error details ↦ ok none
      | answered [] ↦ err index_error
      | answered (res ∷ rest) ↦ ok (some (output_of res.text res))
    ]

-- What the iteration over the stream gives: messages, until it ends or breaks off with an error.
pub record Stream : Type 0 where
  pub messages : List Message
  pub broken : Option String

unfoldable pub join_texts : List String → String
join_texts [] = ""
join_texts (t ∷ texts) = join t (join_texts texts)

-- The tokens are those that were collected before the messages.
unfoldable pub read_messages : List String → List Message → Option Output
unfolding output_of join_texts
read_messages tokens [] = none
read_messages tokens (resp ∷ messages) =
    let collected = if resp.tokens then tokens ++ (resp.text ∷ []) else tokens in
    let later = read_messages collected messages in
    if resp.tokens && not (nat_eq resp.stop_reason 0)
    then some (output_of (join_texts collected) resp)
    else later

-- An error of the stream is logged, and there is no output.
unfoldable pub make_grpc_request_stream :
    (String → ℕ → String) → (Channel → Request → Stream) → Plugin → Option String → Option Output
unfolding create_channel single_request read_messages
make_grpc_request_stream get_server_certificate generate_stream p text =
    read_messages []
      (generate_stream (create_channel get_server_certificate p) (single_request p text)).messages

-- The function that the constructor chooses.
unfoldable pub request_func :
    (String → ℕ → String)
    → (Channel → Request → Call (List Message))
    → (Channel → Request → Stream)
    → Plugin
    → Option String
    → Result (Option Output)
unfolding make_grpc_request make_grpc_request_stream
request_func get_server_certificate generate generate_stream p text =
    if p.streaming
    then ok (make_grpc_request_stream get_server_certificate generate_stream p text)
    else make_grpc_request get_server_certificate generate p text

unfoldable pub get_model_info {ℓ} :
    {I : Type ℓ} → (String → ℕ → String) → (Channel → Call I) → Plugin → Option I
unfolding create_channel
get_model_info get_server_certificate model_info p =
    elim (model_info (create_channel get_server_certificate p)) [
      | rpc_error details ↦ none
      | answered info ↦ some info
    ]
