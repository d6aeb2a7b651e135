-- ===== src/Labeler/Comment/Commands.antt =====
-- The dictionary of commands: one entry to a label, the last one counts.
use opendatahub_tests.Shared.{
  String, ◌≡◌, refl, ◌∙◌, Bool, Option, none, some, List, [], ◌∷◌, arith, ◌==◌, if◌then◌else◌,
  eq_iff, lookup, put, lookup-put, without_char,
}
use opendatahub_tests.Labeler.Comment.{collect}

-- The last command for a label, or what was known before.
abbrev pub last_for : String → List (String × Bool) → Option Bool → Option Bool
last_for k [] known = known
last_for k ((label, cancelled) ∷ found) known =
    last_for k found (if without_char b'/' label == k then some cancelled else known)

pub lookup-collect_from :
    (k : String) (labels found : List (String × Bool))
    → lookup k (collect labels found) ≡ last_for k found (lookup k labels)
unfolding collect
lookup-collect_from k labels [] = refl
lookup-collect_from k labels ((label, cancelled) ∷ found) =
    lookup-collect_from k (put (without_char b'/' label) cancelled labels) found
    ∙ (rw (lookup-put (without_char b'/' label) k cancelled labels))

-- Of several commands with the same label, the last one in the comment decides.
pub lookup-collect :
    (k : String) (found : List (String × Bool))
    → lookup k (collect [] found) ≡ last_for k found none
lookup-collect k found = lookup-collect_from k [] found

-- No key stands twice.
abbrev pub IsDict : List (String × Bool) → Type 0
IsDict [] = Unit
IsDict ((k, v) ∷ m) = (lookup k m ≡ none) × IsDict m

put-IsDict : (k : String) (v : Bool) (m : List (String × Bool)) → IsDict m → IsDict (put k v m)
put-IsDict k v [] d = (refl, tt)
put-IsDict k v ((j, w) ∷ m) d =
    ground (arith, lookup-put k j v m, eq_iff j k, eq_iff k j, put-IsDict k v m)

pub collect-IsDict :
    (labels found : List (String × Bool)) → IsDict labels → IsDict (collect labels found)
unfolding collect
collect-IsDict labels [] d = d
collect-IsDict labels ((label, cancelled) ∷ found) d =
    collect-IsDict (put (without_char b'/' label) cancelled labels) found
      (put-IsDict (without_char b'/' label) cancelled labels d)
