-- ===== src/Collector/Command.antt =====
-- The command of `run_must_gather` in utilities/must_gather_collector.py.
use Prim.Native.Char.{code}
use opendatahub_tests.Shared.{
  ℕ, String, Bool, true, not, ◌&&◌, ◌||◌, none, some, List, [], ◌∷◌, ◌==◌, if◌then◌else◌, lookup,
  join, is_empty, leb, nat_eq, ok, err,
}
use opendatahub_tests.Collector.Directories.{Result, invalid_arguments}

-- What `shlex.quote` takes for safe, in ASCII.
is_safe : ℕ → Bool
is_safe n =
    (leb 64 n && leb n 90)
    || (leb 97 n && leb n 122)
    || (leb 43 n && leb n 58)
    || nat_eq n 95
    || nat_eq n 37
    || nat_eq n 61

all_safe : String → Bool
unfolding is_safe
all_safe String.[] = true
all_safe (String.◌∷◌ c s) = is_safe (code c) && all_safe s

quote_quotes : String → String
quote_quotes String.[] = String.[]
quote_quotes (String.◌∷◌ c s) =
    let rest = quote_quotes s in
    if nat_eq (code c) 39 then join "'\"'\"'" rest else String.◌∷◌ c rest

-- `shlex.quote(text)`
unfoldable pub quote : String → String
unfolding all_safe is_safe quote_quotes
quote text =
    if text == ""
    then "''"
    else if all_safe text
    then text
    else join "'" (join (quote_quotes text) "'")

abbrev pub Namespaces : Type 0
Namespaces = List (String × String)

-- The variable of one namespace, if the namespace is given.
unfoldable pub export_of : Namespaces → String → String → String
unfolding quote all_safe is_safe quote_quotes
export_of namespaces_dict key variable = elim (lookup key namespaces_dict) [
  | none ↦ ""
  | some namespace ↦
      if namespace == ""
      then ""
      else join "export " (join variable (join "=" (join (quote namespace) ";")))
]

abbrev pub variables : List (String × String)
variables =
    ("operator", "OPERATOR_NAMESPACE")
    ∷ ("notebooks", "NOTEBOOKS_NAMESPACE")
    ∷ ("monitoring", "MONITORING_NAMESPACE")
    ∷ ("application", "APPLICATIONS_NAMESPACE")
    ∷ ("model_registries", "MODEL_REGISTRIES_NAMESPACE")
    ∷ ("ossm", "OSSM_NS")
    ∷ ("knative", "KNATIVE_NS")
    ∷ ("auth", "AUTH_NS")
    ∷ []

exports : Namespaces → List (String × String) → String
unfolding export_of
exports namespaces_dict [] = ""
exports namespaces_dict ((key, variable) ∷ rest) =
    join (export_of namespaces_dict key variable) (exports namespaces_dict rest)

option_of : String → String → String
option_of option value = if value == "" then "" else join option value

-- The text of the command, which is then split and run.
unfoldable pub must_gather_command : String → String → String → String → Namespaces → String
unfolding exports export_of option_of
must_gather_command image_url target_dir since component_name namespaces_dict =
    let gather =
      if not (component_name == "")
      then join " -- 'export COMPONENT=" (join component_name "; /usr/bin/gather' ")
      else if not (is_empty namespaces_dict)
      then join " -- '" (join (exports namespaces_dict variables) " /usr/bin/gather'")
      else "" in
    join "oc adm must-gather" (
      join (option_of " --dest-dir=" target_dir)
        (join (option_of " --since=" since) (join (option_of " --image=" image_url) gather)))

unfoldable pub run_must_gather {ℓ} :
    {A : Type ℓ} → (String → A) → String → String → String → String → Namespaces → Result A
unfolding must_gather_command exports export_of option_of
run_must_gather run image_url target_dir since component_name namespaces_dict =
    if not (component_name == "") && not (is_empty namespaces_dict)
    then err invalid_arguments
    else ok (run (must_gather_command image_url target_dir since component_name namespaces_dict))
