-- ===== src/Grpc/Tests.antt =====
-- Requests to a service that answers with a few messages.
use opendatahub_tests.Shared.{ℕ, String, true, false, none, some, [], ◌∷◌, ok, err, ◌≡◌, refl, join}
use opendatahub_tests.Grpc.{
  Plugin, Channel, Request, Stream, Message, secure_channel, create_channel, answered, rpc_error,
  index_error, make_grpc_request, make_grpc_request_stream, join_texts,
}
use opendatahub_tests.Grpc.Streams.{make_grpc_request_stream_lem}

abbrev certificate : String → ℕ → String
certificate host port = join "certificate of " host

abbrev plugin : Plugin
plugin = record { host = "tgis"; model_name = "flan"; streaming = true; use_tls = true }

abbrev greeting : Message
greeting = record {
  tokens = true;
  text = "Hello, ";
  stop_reason = 0;
  input_token_count = 0;
  generated_token_count = 1;
}

abbrev details : Message
details = record {
  tokens = false;
  text = "";
  stop_reason = 0;
  input_token_count = 4;
  generated_token_count = 0;
}

abbrev ending : Message
ending = record {
  tokens = true;
  text = "world";
  stop_reason = 2;
  input_token_count = 4;
  generated_token_count = 2;
}

abbrev answers : Channel → Request → Stream
answers channel request = record {
  messages = details ∷ greeting ∷ ending ∷ greeting ∷ [];
  broken = some "deadline exceeded";
}

certified : create_channel certificate plugin ≡ secure_channel "tgis" "certificate of tgis"
unfolding create_channel
certified = refl

nothing_generated :
    make_grpc_request certificate (λ channel request. answered []) plugin (some "Hi")
    ≡ err index_error
unfolding make_grpc_request
nothing_generated = refl

failed_request :
    make_grpc_request certificate (λ channel request. rpc_error "unavailable") plugin none ≡ ok none
unfolding make_grpc_request
failed_request = refl

make_grpc_request_stream_lem_example :
    make_grpc_request_stream certificate answers plugin (some "Hi")
    ≡ some record {
      input_tokens = 4;
      stop_reason = 2;
      output_text = "Hello, world";
      output_tokens = 2;
    }
unfolding join_texts
make_grpc_request_stream_lem_example =
    make_grpc_request_stream_lem certificate answers plugin (some "Hi") (details ∷ greeting ∷ [])
      ending (greeting ∷ []) refl refl refl
