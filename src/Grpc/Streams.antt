-- ===== src/Grpc/Streams.antt =====
-- What is read from a stream of generated text.
use opendatahub_tests.Shared.{
  ℕ, String, Bool, true, false, not, ◌&&◌, Option, none, some, List, [], ◌∷◌, ◌++◌, if◌then◌else◌,
  nat_eq, any, keep, map, ◌≡◌, refl, ap, ◌∙◌, arith, Bool-cases, inl, inr,
}
use mathlib.Core.List.{append_assoc}
use opendatahub_tests.Grpc.{
  Plugin, Channel, Request, Stream, Message, create_channel, single_request, join_texts, output_of,
  read_messages, make_grpc_request_stream,
}

-- A message with tokens that says why the text stopped.
abbrev pub stops : Message → Bool
stops m = m.tokens && not (nat_eq m.stop_reason 0)

-- The texts of the messages that have tokens.
abbrev pub texts_of : List Message → List String
texts_of messages = map (λ (m : Message). m.text) (keep (λ (m : Message). m.tokens) messages)

read_messages-none :
    (tokens : List String) (messages : List Message)
    → any stops messages ≡ false
    → read_messages tokens messages ≡ none
unfolding read_messages
read_messages-none tokens [] h = refl
read_messages-none tokens (m ∷ messages) h = ground (
  arith,
  h,
  read_messages-none (if m.tokens then tokens ++ (m.text ∷ []) else tokens) messages
      (ground (arith, h)),
)

read_messages-stops :
    (tokens : List String) (before : List Message) (last : Message) (after : List Message)
    → any stops before ≡ false
    → stops last ≡ true
    → read_messages tokens (before ++ (last ∷ after))
      ≡ some (output_of (join_texts (tokens ++ texts_of (before ++ (last ∷ [])))) last)
unfolding read_messages
read_messages-stops tokens [] last after h stop = elim (Bool-cases last.tokens) [
  | inl e ↦ ground (arith, e, stop)
  | inr e ↦ ground (arith, e, stop)
]
read_messages-stops tokens (m ∷ before) last after h stop = elim (Bool-cases m.tokens) [
  | inl e ↦
      let later =
        read_messages-stops (tokens ++ (m.text ∷ [])) before last after (ground (arith, h)) stop in
      let moved = append_assoc tokens (m.text ∷ []) (texts_of (before ++ (last ∷ []))) in
      ground (arith, e, h, moved, later)
  | inr e ↦
      let later = read_messages-stops tokens before last after (ground (arith, h)) stop in
      ground (arith, e, h, later)
]

-- If some message of the stream has tokens and says why the text stopped, the output is that of the
-- first one that does, with the texts, in their order, of all the messages up to it that have tokens:
-- whatever follows it, and however the stream ends.
pub make_grpc_request_stream_lem :
    (get_server_certificate : String → ℕ → String) (generate_stream : Channel → Request → Stream)
    (p : Plugin) (text : Option String) (before : List Message) (last : Message)
    (after : List Message)
    → (generate_stream (create_channel get_server_certificate p) (single_request p text)).messages
      ≡ before ++ (last ∷ after)
    → any stops before ≡ false
    → stops last ≡ true
    → make_grpc_request_stream get_server_certificate generate_stream p text
      ≡ some record {
        input_tokens = last.input_token_count;
        stop_reason = last.stop_reason;
        output_text = join_texts (texts_of (before ++ (last ∷ [])));
        output_tokens = last.generated_token_count;
      }
unfolding make_grpc_request_stream output_of
make_grpc_request_stream_lem get_server_certificate generate_stream p text before last after same h
      stop =
    ap (read_messages []) same ∙ read_messages-stops [] before last after h stop

-- If no message of the stream both has tokens and says why the text stopped, there is no output, even
-- where the stream ends without an error.
make_grpc_request_stream-none :
    (get_server_certificate : String → ℕ → String) (generate_stream : Channel → Request → Stream)
    (p : Plugin) (text : Option String)
    → any stops
        (generate_stream (create_channel get_server_certificate p) (single_request p text)).messages
      ≡ false
    → make_grpc_request_stream get_server_certificate generate_stream p text ≡ none
unfolding make_grpc_request_stream
make_grpc_request_stream-none get_server_certificate generate_stream p text h =
    read_messages-none []
      (generate_stream (create_channel get_server_certificate p) (single_request p text)).messages h
