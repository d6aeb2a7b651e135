-- ===== src/Serving/Output.antt =====
-- What `run_inference_flow` of utilities/inference_utils.py makes of an output. The JSON library is an
-- argument; lines end in a line feed, with or without a carriage return.
pub mod Headers
use Prim.Native.String
use Prim.Native.Char.{Char, code}
use opendatahub_tests.Shared.{
  ℕ, zero, suc, String, Bool, true, false, not, ◌&&◌, ◌||◌, Option, none, some, List, [], ◌∷◌, ◌==◌,
  if◌then◌else◌, has, join, in_text, lower, starts_with, drop_chars, nat_eq, is_space, put,
  leading_spaces, split_on, without_char,
}
use opendatahub_tests.Serving.Body.{tcp_protocols}
use opendatahub_tests.Serving.Running.{has_status}

pub data OutputError : Type 0 where
  -- an error status; a header without a value; an output with too few lines
  gateway_timeout value_error index_error : OutputError

pub data Field (J : Type 0) : Type 0 where
  json : J → Field J
  header : String → Field J

pub data Response (J : Type 0) : Type 0 where
  fields : List (String × Field J) → Response J
  plain : J → Response J
  raw : String → Response J
  raised : OutputError → Response J

-- `text.splitlines()`
drop_last_empty : List String → List String
drop_last_empty [] = []
drop_last_empty (x ∷ []) = if x == "" then [] else x ∷ []
drop_last_empty (x ∷ y ∷ rest) = x ∷ drop_last_empty (y ∷ rest)

without_returns : List String → List String
without_returns [] = []
without_returns (x ∷ rest) = without_char 13 x ∷ without_returns rest

unfoldable pub splitlines : String → List String
unfolding drop_last_empty without_returns
splitlines text = without_returns (drop_last_empty (split_on 10 text))

-- The text in front of the last line feed that a brace follows; `none` where there is none.
unfoldable pub before_brace : String → Option String
before_brace String.[] = none
before_brace (String.◌∷◌ c s) =
    let later = before_brace s in
    elim later [
      | some rest ↦ some (String.◌∷◌ c rest)
      | none ↦ if nat_eq (code c) 10 && starts_with s "{" then some "" else none
    ]

-- From the first opening brace on.
from_brace : String → Option String
from_brace String.[] = none
from_brace (String.◌∷◌ c s) =
    let later = from_brace s in if nat_eq (code c) 123 then some (String.◌∷◌ c s) else later

-- Up to the last closing brace.
up_to_brace : String → Option String
up_to_brace String.[] = none
up_to_brace (String.◌∷◌ c s) = elim (up_to_brace s) [
  | some rest ↦ some (String.◌∷◌ c rest)
  | none ↦ if nat_eq (code c) 125 then some (String.◌∷◌ c String.[]) else none
]

-- `re.search(r"(\{.*)(?s:.*)(\})", text)`
unfoldable pub in_braces : String → Option String
unfolding from_brace up_to_brace
in_braces text = elim (from_brace text) [ none ↦ none | some rest ↦ up_to_brace rest ]

-- `re.sub(r"\n\s*", "", text)`, with whether white space is being passed over.
unfoldable pub join_lines : Bool → String → String
join_lines skipping String.[] = String.[]
join_lines skipping (String.◌∷◌ c s) =
    let cut = join_lines true s in
    let more = join_lines false s in
    if nat_eq (code c) 10 || (skipping && is_space c) then cut else String.◌∷◌ c more

-- `line.strip()`
strip_end : String → String
strip_end String.[] = String.[]
strip_end (String.◌∷◌ c s) =
    let rest = strip_end s in if is_space c && rest == "" then String.[] else String.◌∷◌ c rest

unfoldable pub strip : String → String
unfolding strip_end
strip line = strip_end (drop_chars (leading_spaces line) line)

-- `re.split(": | ", line, maxsplit=1)` into two parts; `none` where there is one part.
unfoldable pub split_header : String → Option (String × String)
split_header String.[] = none
split_header (String.◌∷◌ c s) =
    let later = split_header s in
    if starts_with (String.◌∷◌ c s) ": "
    then some ("", drop_chars 2 (String.◌∷◌ c s))
    else if nat_eq (code c) 32
    then some ("", s)
    else elim later [ none ↦ none | some (name, value) ↦ some (String.◌∷◌ c name, value) ]

-- `lines[:-2]`
but_two : List String → List String
but_two [] = []
but_two (a ∷ []) = []
but_two (a ∷ b ∷ []) = []
but_two (a ∷ b ∷ c ∷ rest) = a ∷ but_two (b ∷ c ∷ rest)

last_line : List String → Option String
last_line [] = none
last_line (x ∷ []) = some x
last_line (x ∷ y ∷ rest) = last_line (y ∷ rest)

module _ {J : Type 0} where
  unfoldable pub add_headers : List String → List (String × Field J) → Response J
  add_headers [] dict = fields dict
  add_headers (line ∷ lines) dict =
      let next = add_headers lines dict in
      if line == "" then next else elim (split_header (strip line)) [
        | none ↦ raised value_error
        | some (name, value) ↦ add_headers lines (put name (header value) dict)
      ]

  -- With the content type of JSON: `none` of the JSON library is its error.
  json_response : (String → Option J) → String → Response J
  json_response loads out = elim (before_brace out) [
    | none ↦ fields []
    | some headers ↦ elim (in_braces out) [
      | none ↦ add_headers (splitlines headers) []
      | some text ↦ elim (loads (join_lines false text)) [
        | none ↦ raw out
        | some value ↦ add_headers (splitlines headers) (("output", json value) ∷ [])
      ]
    ]
  ]

  -- Otherwise the last line but two is the output, and one of the headers too.
  text_response : (String → Option J) → String → Response J
  unfolding but_two last_line
  text_response loads out =
      let response_headers = but_two (splitlines out) in
      elim (last_line response_headers) [
        | none ↦ raised index_error
        | some line ↦ elim (loads line) [
          | none ↦ raw out
          | some value ↦ add_headers response_headers (("output", json value) ∷ [])
        ]
      ]

  unfoldable pub run_inference_flow : (String → Option J) → String → String → Response J
  unfolding json_response text_response but_two last_line
  run_inference_flow loads protocol out =
      if has_status "504" (lower out)
      then raised gateway_timeout
      else if has tcp_protocols protocol
      then (if in_text "content-type: application/json" (lower out)
          then json_response loads out
          else text_response loads out)
      else elim (loads out) [ none ↦ raw out | some value ↦ plain value ]
