-- ===== src/Support/Tests.antt =====
-- Concrete paths, issues and bundles, and instances of the theorems on them.
use Prim.Native.String.{count}
use opendatahub_tests.Shared.{
  if◌then◌else◌, ◌==◌, none, some, [], ◌∷◌, split_on, drop_chars, ◌≡◌, refl,
}
use opendatahub_tests.Support.Paths.{Parts, Links, inside, outside, link_loop, resolve_repo_path}
use opendatahub_tests.Support.Issues.{search_version}

abbrev root : Parts
root = "home" ∷ "repo" ∷ []

-- Links in the repository: one that leads out of it, one to its data, and one to itself.
abbrev links : Links
links [] = none
links (a ∷ []) = none
links (a ∷ b ∷ []) = none
links (a ∷ b ∷ name ∷ []) =
    if name == "tmp"
    then some "/tmp"
    else if name == "models"
    then some "./data"
    else if name == "self"
    then some "self"
    else none
links (a ∷ b ∷ c ∷ d ∷ rest) = none

back_inside : resolve_repo_path 8 links root "../repo/data" ≡ inside ("home" ∷ "repo" ∷ "data" ∷ [])
unfolding resolve_repo_path split_on
back_inside = refl

linked_inside :
    resolve_repo_path 8 links root "models/small" ≡ inside ("home" ∷ "repo" ∷ "data" ∷ "small" ∷ [])
unfolding resolve_repo_path split_on
linked_inside = refl

linked_outside : resolve_repo_path 8 links root "tmp/file" ≡ outside
unfolding resolve_repo_path split_on
linked_outside = refl

looping : resolve_repo_path 8 links root "self" ≡ link_loop
unfolding resolve_repo_path split_on
looping = refl

above : resolve_repo_path 8 links root "../../etc/passwd" ≡ outside
unfolding resolve_repo_path split_on
above = refl

fix_version : search_version "RHOAI 2.16.1 (EUS)" ≡ some "2.16.1"
unfolding search_version drop_chars
fix_version = refl

line_feed : count "\n" ≡ 1
line_feed = refl
