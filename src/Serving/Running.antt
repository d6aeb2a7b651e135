-- ===== src/Serving/Running.antt =====
-- The commands that `generate_command` of utilities/inference_utils.py makes, one attempt of
-- `run_inference`, and `get_inference_url`. Body and header are the substituted templates; what runs
-- a command is an argument.
use Prim.Native.Char.{code}
use opendatahub_tests.Shared.{
  ℕ, zero, suc, String, Bool, true, false, not, ◌&&◌, ◌||◌, Option, none, some, ◌==◌, if◌then◌else◌,
  has, join, in_text, lower, starts_with, drop_chars, leb, nat_eq, leading_spaces,
}
use opendatahub_tests.Serving.Modes.{
  Result, ok, err, ◌>>=◌, value_error, model_mesh, is_mode, in_modes, raw_deployment_modes,
}
use opendatahub_tests.Serving.Body.{tcp_protocols}

-- `urlparse(url).netloc`, for a URL with a scheme: what stands between "//" and the next slash, question
-- mark or hash.
until_path : String → String
until_path String.[] = String.[]
until_path (String.◌∷◌ c s) =
    let rest = until_path s in
    if nat_eq (code c) 47 || nat_eq (code c) 63 || nat_eq (code c) 35
    then String.[]
    else String.◌∷◌ c rest

unfoldable pub netloc : String → String
unfolding until_path
netloc String.[] = ""
netloc (String.◌∷◌ c s) =
    let rest = netloc s in
    if starts_with (String.◌∷◌ c s) "://" then until_path (drop_chars 3 (String.◌∷◌ c s)) else rest

-- `get_inference_url`; `route` is the host of the service's first route, and `url` that of its status.
unfoldable pub get_inference_url :
    Bool → Option String → Result String → Option String → Result String
unfolding netloc until_path
get_inference_url exposed deployment_mode route url =
    if not exposed
    then ok "localhost"
    else if is_mode deployment_mode model_mesh
    then route
    else elim url [
      | none ↦ err value_error
      | some u ↦ if u == "" then err value_error else ok (netloc u)
    ]

pub record Command : Type 0 where
  pub protocol : String
  pub deployment_mode : Option String
  pub body : String
  pub header : String
  pub url : String
  pub token : Option String
  pub insecure : Bool
  pub ca_bundle : String
  pub args : Option String

executable : String → Option String → Result String
executable protocol deployment_mode =
    if has tcp_protocols protocol
    then ok "curl -i -s "
    else if protocol == "grpc"
    then ok (
        join "grpcurl -connect-timeout 10 "
          (if in_modes deployment_mode raw_deployment_modes then " --plaintext " else ""))
    else err value_error

option_text : Option String → String → String → String
option_text none before after = ""
option_text (some t) before after = if t == "" then "" else join before (join t after)

unfoldable pub tls_option : Command → String
tls_option c =
    if c.insecure
    then " --insecure"
    else if c.ca_bundle == ""
    then " --insecure"
    else join " --cacert " (join c.ca_bundle " ")

unfoldable pub generate_command : Command → Result String
unfolding executable option_text tls_option
generate_command c = do
  cmd_exec ← executable c.protocol c.deployment_mode
  ok (
      join cmd_exec (
        join " -d '" (
          join c.body (
            join "'  -H '" (
              join c.header (
                join "'" (
                  join (option_text c.token " -H 'Authorization: Bearer " "'") (
                    join (tls_option c) (join (option_text c.args " " " ") (join " " c.url))))))))))

-- `text.replace("localhost", new)`, with the number of characters that are still to be passed over.
replace_localhost : String → ℕ → String → String
replace_localhost new skip String.[] = String.[]
replace_localhost new (suc skip) (String.◌∷◌ c s) = replace_localhost new skip s
replace_localhost new zero (String.◌∷◌ c s) =
    let cut = replace_localhost new 8 s in
    let more = replace_localhost new zero s in
    if starts_with (String.◌∷◌ c s) "localhost" then join new cut else String.◌∷◌ c more

-- Whether a word ends in front of the text.
at_word_end : String → Bool
at_word_end String.[] = true
at_word_end (String.◌∷◌ c s) = not (
    (leb 48 (code c) && leb (code c) 57)
    || (leb 65 (code c) && leb (code c) 90)
    || (leb 97 (code c) && leb (code c) 122)
    || nat_eq (code c) 95)

-- What follows "http/1.": a digit, white space, the status and the end of a word.
status_follows : String → String → Bool
unfolding at_word_end
status_follows status String.[] = false
status_follows status (String.◌∷◌ c s) =
    let spaces = leading_spaces s in
    let after = drop_chars spaces s in
    leb 48 (code c)
    && leb (code c) 57
    && leb 1 spaces
    && starts_with after status
    && at_word_end (drop_chars 3 after)

-- `re.search(rf"http/1\.\d\s+{status}\b", text)` for a status of three digits.
unfoldable pub has_status : String → String → Bool
unfolding status_follows at_word_end
has_status status String.[] = false
has_status status (String.◌∷◌ c s) =
    (starts_with (String.◌∷◌ c s) "http/1."
      && status_follows status (drop_chars 7 (String.◌∷◌ c s)))
    || has_status status s

-- How a run ends: its output, or the error.
pub data Ran : Type 0 where
  output : String → Ran
  not_ready server_error gateway_timeout failed : Ran

unfoldable pub judge_output : Bool → String → Ran
unfolding has_status
judge_output succeeded out =
    if not succeeded
    then failed
    else if in_text "http/1.0 503" (lower out)
    then not_ready
    else if has_status "500" (lower out)
    then server_error
    else output out

-- The port that is forwarded, where the service is internal; `run` gives whether the command succeeded,
-- and its output.
unfoldable pub run_inference :
    Bool → Result String → (ℕ → String) → Result ℕ → (String → Bool × String) → Result Ran
unfolding judge_output replace_localhost
run_inference exposed command digits target_port run = do
  cmd ← command
  (if exposed then (let (succeeded, out) = run cmd in ok (judge_output succeeded out)) else (do
    port ← target_port
    let forwarded = replace_localhost (join "localhost:" (digits port)) 0 cmd
    let (succeeded, out) = run forwarded in ok (judge_output succeeded out)))
