-- ===== src/Cluster/Access/Token.antt =====
-- The token in an authorization text.
use text.Mathlib.TextLemmas.{cons-append, nil≢cons}
use Prim.Native.Char.{Char, code}
use opendatahub_tests.Shared.{
  String, Bool, true, false, not, ◌&&◌, some, ◌==◌, join, starts_with, drop_chars, nat_eq, ◌≡◌,
  refl, arith, starts_with-append, Bool-cases, inl, inr, same_text, sym, ◌∙◌,
}
use opendatahub_tests.Shared.Prefixes.{drop_chars-append}
use opendatahub_tests.Cluster.Errors.{ok}
use opendatahub_tests.Cluster.Access.{until_newline, search_bearer, get_openshift_token}

abbrev pub one_line : String → Bool
one_line String.[] = true
one_line (String.◌∷◌ c s) = not (nat_eq (code c) 10) && one_line s

until_newline-one_line : (s : String) → one_line s ≡ true → until_newline s ≡ s
unfolding until_newline
until_newline-one_line String.[] h = refl
until_newline-one_line (String.◌∷◌ c s) h = ground (arith, h, until_newline-one_line s)

search_bearer-here :
    (c : Char) (s t : String)
    → starts_with (String.◌∷◌ c s) "Bearer " ≡ true
    → drop_chars 7 (String.◌∷◌ c s) ≡ t
    → one_line t ≡ true
    → (t == "") ≡ false
    → search_bearer (String.◌∷◌ c s) ≡ some t
unfolding search_bearer
search_bearer-here c s t begins e h n =
    rw (e, until_newline-one_line t h) (ground (arith, begins, n))

-- A token on one line, written behind "Bearer ", is read back.
pub get_openshift_token-bearer :
    (token : String)
    → one_line token ≡ true
    → (token == "") ≡ false
    → get_openshift_token (join "Bearer " token) ≡ ok token
unfolding get_openshift_token
get_openshift_token-bearer token h e =
    let found : search_bearer (join "Bearer " token) ≡ some token =
      rw (cons-append "B" "earer " token) (
        search_bearer-here "B" (join "earer " token) token
          (rw⁻¹ (cons-append "B" "earer " token) (starts_with-append "Bearer " token))
          (rw⁻¹ (cons-append "B" "earer " token) (drop_chars-append "Bearer " token)) h e) in
    elim (Bool-cases (join "Bearer " token == "")) [
      | inl n ↦
          absurd (
            nil≢cons (sym (same_text (join "Bearer " token) "" n) ∙ cons-append "B" "earer " token))
      | inr n ↦ rw (n, found) refl
    ]
