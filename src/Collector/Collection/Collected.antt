-- ===== src/Collector/Collection/Collected.antt =====
-- What is collected, and what is left of it.
use opendatahub_tests.Shared.{
  String, Bool, true, false, not, ◌&&◌, Option, none, some, List, [], ◌∷◌, ◌==◌, if◌then◌else◌,
  first, any, keep, ◌≡◌, refl, arith, Bool-cases, inl, inr,
}
use opendatahub_tests.Collector.Directories.{ok, err, file_not_found, path_join}
use opendatahub_tests.Collector.Collection.{
  get_must_gather_image_info, get_must_gather_output_dir, Call, run_command, make_archive,
  remove_tree, collect_rhoai_must_gather,
}

abbrev pub is_run : Call → Bool
is_run (run_command c) = true
is_run _ = false

-- What is done to a whole directory.
abbrev pub on_tree : Call → Bool
on_tree (make_archive base p) = true
on_tree (remove_tree p) = true
on_tree _ = false

first-any :
    (entries : List (String × Bool))
    → any (λ (e : String × Bool). e.1) entries ≡ false
    → first (λ (e : String × Bool). e.1) entries ≡ none
first-any [] h = refl
first-any ((n, b) ∷ entries) h = ground (arith, h, first-any entries)

any-first :
    (entries : List (String × Bool))
    → any (λ (e : String × Bool). e.1) entries ≡ true
    → (e : String × Bool) × (first (λ (e : String × Bool). e.1) entries ≡ some e)
any-first [] h = ground (arith, h)
any-first ((n, true) ∷ entries) h = ((n, true), refl)
any-first ((n, false) ∷ entries) h = any-first entries h

-- The archive that is made of the first directory, and the directory's removal behind it.
abbrev pub archived : String → String → Option (String × Bool) → List Call
archived base target none = []
archived base target (some (item, is_dir)) =
    make_archive base (path_join target item) ∷ remove_tree (path_join target item) ∷ []

-- The command is run exactly if the installed operator names an image for must-gather. Only then, if
-- the command has left no directory, an error is raised. If an archive is asked for and a directory is
-- there, the first directory is archived and after that removed, and nothing else is archived or
-- removed; otherwise nothing is.
pub collect_rhoai_must_gather_lem :
    (images : Option (List String)) (entries : List (String × Bool)) (name : String)
    (archive : Bool) (base target since : String) (save : Bool)
    → let found = not (get_must_gather_image_info images == "") in
      let left = any (λ (e : String × Bool). e.1) entries in
      let (calls, end_) =
        collect_rhoai_must_gather images entries name archive base target since save in
      (any is_run calls ≡ found)
      × (keep on_tree calls ≡ (
          if found && archive
          then archived base target (first (λ (e : String × Bool). e.1) entries)
          else []))
      × (end_ ≡ (if not found then ok false else if left then ok archive else err file_not_found))
unfolding collect_rhoai_must_gather get_must_gather_output_dir
collect_rhoai_must_gather_lem images entries name archive base target since save =
    elim (Bool-cases (get_must_gather_image_info images == "")) [
      | inl none_found ↦
          (ground (arith, none_found), ground (arith, none_found), ground (arith, none_found))
      | inr found ↦ elim (Bool-cases (any (λ (e : String × Bool). e.1) entries)) [
        | inr n ↦
            let f = first-any entries n in
            (ground (arith, found, n, f), ground (arith, found, n, f), ground (arith, found, n, f))
        | inl y ↦
            let (e, f) = any-first entries y in
            (ground (arith, found, y, f), ground (arith, found, y, f), ground (arith, found, y, f))
      ]
    ]
