-- ===== src/Support/Paths/Inside.antt =====
-- Paths that stay inside the repository.
use opendatahub_tests.Shared.{
  Option, none, String, Bool, true, false, not, ◌&&◌, some, [], ◌∷◌, ◌++◌, ◌==◌, all,
}
use opendatahub_tests.Support.Paths.{Parts, Links}

abbrev pub no_parent : Parts → Bool
no_parent parts = all (λ p. not (p == "..")) parts

-- No place on the way, from the first parts on, is a symbolic link.
abbrev pub is_link : Option String → Bool
is_link none = false
is_link (some target) = true

abbrev pub no_links : Links → Parts → Parts → Bool
no_links links done [] = true
no_links links done (p ∷ rest) =
    not (is_link (links (done ++ (p ∷ [])))) && no_links links (done ++ (p ∷ [])) rest

-- A place without ".." and without links on the way to it.
abbrev pub is_clean : Links → Parts → Bool
is_clean links path = no_parent path && no_links links [] path
