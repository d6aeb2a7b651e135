-- ===== src/Support/Paths.antt =====
-- `resolve_repo_path` of utilities/path_utils.py. The file system's symbolic links are an argument.
pub mod Inside
use Prim.Native.String
use opendatahub_tests.Shared.{
  ℕ, zero, suc, String, Bool, true, false, not, ◌&&◌, ◌||◌, Option, none, some, List, [], ◌∷◌, ◌++◌,
  ◌==◌, if◌then◌else◌, keep, starts_with, split_on,
}

-- The parts of a path, from the root of the file system.
abbrev pub Parts : Type 0
Parts = List String

unfoldable pub parts_of : String → Parts
parts_of path = keep (λ part. not (part == "" || part == ".")) (split_on 47 path)

-- The last part taken off; the root has no parent.
unfoldable pub parent : Parts → Parts
parent [] = []
parent (x ∷ []) = []
parent (x ∷ y ∷ rest) = x ∷ parent (y ∷ rest)

-- The text of the symbolic link at a place, if there is one.
abbrev pub Links : Type 0
Links = Parts → Option String

-- `Path.resolve`, from the parts that are resolved already: a link's text takes its place. `limit` is
-- the number of links that may be followed; behind it, as in a loop of links, there is no result.
unfoldable pub resolve_from : ℕ → Links → Parts → Parts → Option Parts
unfolding parent parts_of
resolve_from limit links done [] = some done
resolve_from zero links done (part ∷ rest) = elim (part == "..") [
  | true ↦ resolve_from zero links (parent done) rest
  | false ↦ elim (links (done ++ (part ∷ []))) [
    | none ↦ resolve_from zero links (done ++ (part ∷ [])) rest
    | some target ↦ none
  ]
]
resolve_from (suc limit) links done (part ∷ rest) = elim (part == "..") [
  | true ↦ resolve_from (suc limit) links (parent done) rest
  | false ↦ elim (links (done ++ (part ∷ []))) [
    | none ↦ resolve_from (suc limit) links (done ++ (part ∷ [])) rest
    | some target ↦
        resolve_from limit links (if starts_with target "/" then [] else done)
          (parts_of target ++ rest)
  ]
]

unfoldable pub is_relative_to : Parts → Parts → Bool
is_relative_to path [] = true
is_relative_to [] (r ∷ root) = false
is_relative_to (p ∷ path) (r ∷ root) = p == r && is_relative_to path root

pub data Resolved : Type 0 where
  inside : Parts → Resolved
  outside link_loop : Resolved

-- The root of the repository is given resolved.
unfoldable pub resolve_repo_path : ℕ → Links → Parts → String → Resolved
unfolding parts_of resolve_from parent is_relative_to
resolve_repo_path limit links repo_root source =
    elim (resolve_from limit links (if starts_with source "/" then [] else repo_root)
      (parts_of source)) [
        | none ↦ link_loop
        | some resolved ↦ if is_relative_to resolved repo_root then inside resolved else outside
      ]
