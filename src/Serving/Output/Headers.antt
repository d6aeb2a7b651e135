-- ===== src/Serving/Output/Headers.antt =====
-- Headers that are written line by line and read back.
use Prim.Native.Char.{Char, code}
use text.Mathlib.TextLemmas.{cons-append, nil-append}
use opendatahub_tests.Shared.{
  String, Bool, true, false, not, ◌&&◌, Option, some, List, lookup, lookup-put, ap, ◌∙◌,
  if◌then◌else◌, [], ◌∷◌, ◌==◌, map, join, starts_with, starts_with-append, drop_chars, nat_eq, put,
  ◌≡◌, refl, arith, and_parts,
}
use opendatahub_tests.Shared.Prefixes.{drop_chars-append, starts_with-cons_ne}
use opendatahub_tests.Serving.Output.{Field, header, fields, split_header, strip, add_headers}

-- A header's name has no colon and no space.
abbrev pub is_name : String → Bool
is_name String.[] = true
is_name (String.◌∷◌ c s) = not (nat_eq (code c) 58) && (not (nat_eq (code c) 32) && is_name s)

abbrev pub rendered : String × String → String
rendered (name, value) = join name (join ": " value)

colon_starts :
    (c : Char) (s t : String)
    → starts_with (String.◌∷◌ c s) ": " ≡ true
    → drop_chars 2 (String.◌∷◌ c s) ≡ t
    → split_header (String.◌∷◌ c s) ≡ some ("", t)
unfolding split_header
colon_starts c s t begins e = ground (arith, begins, e)

other_starts :
    (c : Char) (s name value : String)
    → starts_with (String.◌∷◌ c s) ": " ≡ false
    → not (nat_eq (code c) 32) ≡ true
    → split_header s ≡ some (name, value)
    → split_header (String.◌∷◌ c s) ≡ some (String.◌∷◌ c name, value)
unfolding split_header
other_starts c s name value begins space e = ground (arith, begins, space, e)

split_header-rendered :
    (name value : String)
    → is_name name ≡ true
    → split_header (join name (join ": " value)) ≡ some (name, value)
split_header-rendered String.[] value h =
    rw (nil-append (join ": " value), cons-append ":" " " value)
      (colon_starts ":" (join " " value) value
        (rw⁻¹ (cons-append ":" " " value) (starts_with-append ": " value))
        (rw⁻¹ (cons-append ":" " " value) (drop_chars-append ": " value)))
split_header-rendered (String.◌∷◌ c s) value h =
    let (plain, rest) =
      and_parts (not (nat_eq (code c) 58)) (not (nat_eq (code c) 32) && is_name s) h in
    let (no_space, later) = and_parts (not (nat_eq (code c) 32)) (is_name s) rest in
    let no_colon : starts_with (String.◌∷◌ c (join s (join ": " value))) ": " ≡ false =
      starts_with-cons_ne c ":" (join s (join ": " value)) " "
        (λ same. ground (arith, plain, same)) in
    rw (cons-append c s (join ": " value)) (
      other_starts c (join s (join ": " value)) s value no_colon no_space
        (split_header-rendered s value later))

-- Headers that the lines are split into.
abbrev pub Readable : List (String × String) → Type 0
Readable [] = Unit
Readable (h ∷ headers) =
    (is_name h.0 ≡ true)
    × ((rendered h == "") ≡ false)
    × (strip (rendered h) ≡ rendered h)
    × Readable headers

module _ {J : Type 0} where
  -- The value of the last header with the name, or what was there.
  abbrev pub last_value : String → List (String × String) → Option (Field J) → Option (Field J)
  last_value k [] known = known
  last_value k ((name, value) ∷ headers) known =
      last_value k headers (if name == k then some (header value) else known)

  -- Headers whose names have neither colons nor spaces, written with a colon and a space on lines
  -- without white space at the ends, are read back: under the name of some of them the response has
  -- the value of the last one with that name, also if that is "output", and under any other name what
  -- it had before.
  pub add_headers-rendered :
      (headers : List (String × String)) (dict : List (String × Field J))
      → Readable headers
      → (response : List (String × Field J)) × (add_headers (map rendered headers) dict
          ≡ fields response)
        × ((k : String) → lookup k response ≡ last_value k headers (lookup k dict))
  unfolding add_headers
  add_headers-rendered [] dict readable = (dict, refl, λ k. refl)
  add_headers-rendered ((name, value) ∷ headers) dict (plain, full, stripped, later) =
      let (response, read, known) =
        add_headers-rendered headers (put name (header value) dict) later in
      (
        response,
        ground (arith, full, stripped, split_header-rendered name value plain, read),
        λ k. known k ∙ ap (last_value k headers) (lookup-put name k (header value) dict),
      )
