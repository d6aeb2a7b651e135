-- ===== src/Shared/Texts.antt =====
-- Texts, as Python's `in`, `lower`, `replace` and slices read them. The texts of the program that
-- are lowered are ASCII: other characters are left as they are.
use Prim.Native.Nat.{ℕ, zero, suc, ◌-◌}
use Prim.Native.Char.{Char, code, nul}
use Prim.Native.String.{String, [], ◌∷◌, ◌++◌}
use mathlib.Core.Bool.{Bool, ◌&&◌, ◌||◌}
use mathlib.Core.List.{List}
use text.Mathlib.Text.{starts_with}
use opendatahub_tests.Shared.Tests.{◌==◌, leb, nat_eq, if◌then◌else◌}

-- `needle in text`
unfoldable pub in_text : String → String → Bool
in_text needle [] = needle == ""
in_text needle (c ∷ s) = starts_with (c ∷ s) needle || in_text needle s

char_at : ℕ → String → Char
char_at n [] = nul
char_at zero (c ∷ s) = c
char_at (suc n) (c ∷ s) = char_at n s

lower_char : Char → Char
lower_char c =
    if leb 65 (code c) && leb (code c) 90
    then char_at (code c - 65) "abcdefghijklmnopqrstuvwxyz"
    else c

-- `text.lower()`
unfoldable pub lower : String → String
unfolding lower_char char_at
lower [] = []
lower (c ∷ s) = lower_char c ∷ lower s

-- `text[n:]`
unfoldable pub drop_chars : ℕ → String → String
drop_chars n [] = []
drop_chars zero (c ∷ s) = c ∷ s
drop_chars (suc n) (c ∷ s) = drop_chars n s

-- What `\s` matches, in ASCII.
abbrev pub is_space : Char → Bool
is_space c =
    nat_eq (code c) 32
    || (leb 9 (code c) && leb (code c) 13)
    || (leb 28 (code c) && leb (code c) 31)

-- The length of the run of white space at the front.
unfoldable pub leading_spaces : String → ℕ
leading_spaces [] = 0
leading_spaces (c ∷ s) = let more = suc (leading_spaces s) in if is_space c then more else 0

-- `text.replace(c, "")` for one character, given by its code.
unfoldable pub without_char : ℕ → String → String
without_char n [] = []
without_char n (c ∷ s) = let rest = without_char n s in if nat_eq (code c) n then rest else c ∷ rest

-- An f-string that joins two texts.
abbrev pub join : String → String → String
join s t = s ++ t

push_first : Char → List String → List String
push_first c List.[] = List.◌∷◌ (c ∷ []) List.[]
push_first c (List.◌∷◌ part parts) = List.◌∷◌ (c ∷ part) parts

-- `text.split(c)` for one character, given by its code.
unfoldable pub split_on : ℕ → String → List String
unfolding push_first
split_on n [] = List.◌∷◌ [] List.[]
split_on n (c ∷ s) =
    let rest = split_on n s in if nat_eq (code c) n then List.◌∷◌ [] rest else push_first c rest
