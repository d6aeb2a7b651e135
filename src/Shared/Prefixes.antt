-- ===== src/Shared/Prefixes.antt =====
-- Laws of `starts_with`, and of texts that are put together.
use Prim.Native.Char.{Char, code}
use Prim.Native.String.{String, [], ◌∷◌, ◌++◌, count}
use mathlib.Core.Path.{◌≡◌, refl, sym, ap, ◌∙◌}
use mathlib.Core.Logic.{◌≢◌, inl, inr}
use mathlib.Core.Bool.{false}
use text.Mathlib.Text.{starts_with}
use text.Mathlib.TextEquality.{starts_with_iff, eq_iff}
use text.Mathlib.TextLemmas.{
  head-eq_of_cons-eq, cons-append, append_assoc, append-nil, nil≢cons, append_cancel_left,
  nil-append, length-cons,
}
use opendatahub_tests.Shared.Tests.{Bool-cases, ◌==◌}
use opendatahub_tests.Shared.Texts.{join, drop_chars}

-- Texts whose first characters differ.
pub starts_with-cons_ne :
    (c d : Char) (s t : String) → code c ≢ code d → starts_with (c ∷ s) (d ∷ t) ≡ false
starts_with-cons_ne c d s t differ = elim (Bool-cases (starts_with (c ∷ s) (d ∷ t))) [
  | inl h ↦
      let (u, e) = (starts_with_iff (c ∷ s) (d ∷ t)).0 h in
      absurd (differ (ap code (sym (head-eq_of_cons-eq (sym (cons-append d t u) ∙ e)))))
  | inr h ↦ h
]

pub starts_with-join_ne :
    (c d : Char) (s t user : String)
    → code c ≢ code d
    → starts_with (join (c ∷ s) user) (d ∷ t) ≡ false
starts_with-join_ne c d s t user differ =
    rw (cons-append c s user) (starts_with-cons_ne c d (join s user) t differ)

-- Texts of which one is longer by what begins with `c`.
pub join_ne_longer :
    (s : String) (c : Char) (t user : String) → (join (s ++ (c ∷ t)) user == s) ≡ false
join_ne_longer s c t user = elim (Bool-cases (join (s ++ (c ∷ t)) user == s)) [
  | inl h ↦
      let e = (eq_iff (join (s ++ (c ∷ t)) user) s).0 h in
      let rest : (c ∷ t) ++ user ≡ [] =
        append_cancel_left s ((c ∷ t) ++ user) []
          (sym (append_assoc s (c ∷ t) user) ∙ e ∙ sym (append-nil s)) in
      absurd (nil≢cons (sym rest ∙ cons-append c t user))
  | inr h ↦ h
]

pub join_ne_of_head :
    (c d : Char) (s t u v : String) → code c ≢ code d → (join (c ∷ s) u == join (d ∷ t) v) ≡ false
join_ne_of_head c d s t u v differ = elim (Bool-cases (join (c ∷ s) u == join (d ∷ t) v)) [
  | inl h ↦
      let e = (eq_iff (join (c ∷ s) u) (join (d ∷ t) v)).0 h in
      absurd
        (differ (ap code (head-eq_of_cons-eq (sym (cons-append c s u) ∙ e ∙ cons-append d t v))))
  | inr h ↦ h
]

drop_zero : (t : String) → drop_chars 0 t ≡ t
unfolding drop_chars
drop_zero [] = refl
drop_zero (c ∷ t) = refl

-- What follows a prefix.
pub drop_chars-append : (s t : String) → drop_chars (count s) (join s t) ≡ t
unfolding drop_chars
drop_chars-append [] t = rw (nil-append t) (drop_zero t)
drop_chars-append (c ∷ s) t = rw (length-cons c s, cons-append c s t) (drop_chars-append s t)
