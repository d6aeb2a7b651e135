-- ===== src/Runtime/Containers/Names.antt =====
-- The names of a runtime's containers.
use opendatahub_tests.Shared.{
  String, Bool, true, false, not, ◌||◌, Option, none, some, List, [], ◌∷◌, ◌++◌, ◌==◌, lookup, put,
  lookup-put, keep, map, any, all, ◌≡◌, refl, ap, ◌∙◌, arith, eq_iff, Bool-cases, Option-cases, inl,
  inr, and_parts,
}
use opendatahub_tests.Runtime.Values.{ok, Value, text, Container, name_of, as_name}
use opendatahub_tests.Runtime.Containers.{
  Options, Configs, override, pop_config, config_of, update_container, left_configs, overridden,
  update_containers, new_containers, all_containers,
}
use opendatahub_tests.Runtime.Containers.Untouched.{Fallible-cases, update_container-lookup}

-- No configuration sets a container's name.
abbrev has_key : String → Container → Bool
has_key k config = any (λ (e : String × Value). e.0 == k) config

abbrev pub unnamed : Configs → Bool
unnamed configs = all (λ (c : String × Container). not (has_key "name" c.1)) configs

override-lookup :
    (config c : Container) (k : String)
    → has_key k config ≡ false
    → lookup k (override config c) ≡ lookup k c
unfolding override
override-lookup [] c k h = refl
override-lookup ((j, v) ∷ config) c k h =
    ground (arith, h, override-lookup config (put j v c) k, lookup-put j k v c)

unnamed-lookup :
    (configs : Configs) (name : String) (config : Container)
    → unnamed configs ≡ true
    → lookup name configs ≡ some config
    → has_key "name" config ≡ false
unnamed-lookup [] name config h e = ground (arith, e)
unnamed-lookup ((j, c) ∷ configs) name config h e = elim (Bool-cases (j == name)) [
  | inl b ↦ ground (arith, b, h, e)
  | inr b ↦ unnamed-lookup configs name config (ground (arith, h)) (ground (arith, b, e))
]

unnamed-pop :
    (configs : Configs) (name : String)
    → unnamed configs ≡ true
    → unnamed (pop_config name configs) ≡ true
unfolding pop_config
unnamed-pop [] name h = refl
unnamed-pop ((j, c) ∷ configs) name h = ground (arith, h, unnamed-pop configs name)

-- The configurations that no container of the template takes.
abbrev is_name : String → Option String → Bool
is_name s none = false
is_name s (some t) = t == s

abbrev pub untaken : List Container → Configs → Configs
untaken template configs =
    keep (λ (c : String × Container). not (any (λ t. is_name c.0 (name_of t)) template)) configs

abbrev pub names : Configs → List (Option String)
names configs = map (λ (c : String × Container). some c.0) configs

untaken-left :
    (n : Option String) (template : List Container) (configs : Configs)
    → untaken template (left_configs n configs)
      ≡ keep
          (λ (c : String × Container).
            not (is_name c.0 n || any (λ t. is_name c.0 (name_of t)) template))
          configs
unfolding left_configs pop_config
untaken-left none template configs = refl
untaken-left (some s) template [] = refl
untaken-left (some s) template ((j, c) ∷ configs) =
    ground (arith, eq_iff j s, eq_iff s j, untaken-left (some s) template configs)

unnamed-left :
    (n : Option String) (configs : Configs)
    → unnamed configs ≡ true
    → unnamed (left_configs n configs) ≡ true
unfolding left_configs
unnamed-left none configs h = h
unnamed-left (some s) configs h = unnamed-pop configs s h

name-overridden :
    (o : Options) (c u : Container) (configs : Configs)
    → update_container o c ≡ ok u
    → unnamed configs ≡ true
    → name_of (overridden (config_of (name_of c) configs) u) ≡ name_of c
unfolding overridden config_of
name-overridden o c u configs e h =
    let same : name_of u ≡ name_of c = ap as_name (update_container-lookup o c u "name" refl e) in
    elim (Option-cases (name_of c)) [
      | inl n ↦ rw (n, overridden) (rw⁻¹ n same)
      | inr (s, n) ↦ elim (Option-cases (lookup s configs)) [
        | inl f ↦ rw (n, config_of, f) (rw⁻¹ n same)
        | inr (config, f) ↦
            rw (n, config_of, f)
              (ap as_name (override-lookup config u "name" (unnamed-lookup configs s config h f))
                ∙ rw⁻¹ n same)
      ]
    ]

names-new :
    (configs : Configs)
    → unnamed configs ≡ true
    → map name_of (new_containers configs) ≡ names configs
unfolding new_containers
names-new [] h = refl
names-new ((j, c) ∷ configs) h =
    let (here, there) = and_parts (not (has_key "name" c)) (unnamed configs) h in
    let own : name_of (override c (("name", text j) ∷ [])) ≡ some j =
      ap as_name (override-lookup c (("name", text j) ∷ []) "name" (ground (arith, here))) in
    rw (own, names-new configs there) refl

untaken_none : (configs : Configs) → untaken [] configs ≡ configs
untaken_none [] = refl
untaken_none (c ∷ configs) = ap (λ rest. c ∷ rest) (untaken_none configs)

map-append : (xs ys : List Container) → map name_of (xs ++ ys) ≡ map name_of xs ++ map name_of ys
map-append [] ys = refl
map-append (x ∷ xs) ys = ap (λ rest. name_of x ∷ rest) (map-append xs ys)

names-updated :
    (o : Options) (configs left : Configs) (template cs : List Container)
    → unnamed configs ≡ true
    → update_containers o configs template ≡ ok (cs, left)
    → (map name_of cs ≡ map name_of template)
      × (left ≡ untaken template configs)
      × (unnamed left ≡ true)
unfolding update_containers
names-updated o configs left [] cs h e =
    (ground (arith, e), ground (arith, e, untaken_none configs), ground (arith, e, h))
names-updated o configs left (t ∷ template) cs h e = elim (Fallible-cases (update_container o t)) [
  | inl (raised, f) ↦ ground (arith, e, f)
  | inr (u, f) ↦
      elim (Fallible-cases (update_containers o (left_configs (name_of t) configs) template)) [
        | inl (raised, g) ↦ ground (arith, e, f, g)
        | inr ((rest, last), g) ↦
            let (ns, ls, us) =
              names-updated o (left_configs (name_of t) configs) last template rest
                (unnamed-left (name_of t) configs h) g in
            let same = name-overridden o t u configs f h in
            (
              ground (arith, e, f, g, ns, same),
              ground (arith, e, f, g, ls, untaken-left (name_of t) template configs),
              ground (arith, e, f, g, us),
            )
      ]
]

-- The containers of a runtime have the names of the template's containers, in their order, and behind
-- them the names of those configurations that name no container of the template, each once, as long
-- as no configuration sets a name itself.
pub names-all_containers :
    (o : Options) (configs : Configs) (template cs : List Container)
    → unnamed configs ≡ true
    → all_containers o configs template ≡ ok cs
    → map name_of cs ≡ map name_of template ++ names (untaken template configs)
unfolding all_containers
names-all_containers o configs template cs h e =
    elim (Fallible-cases (update_containers o configs template)) [
      | inl (raised, f) ↦ ground (arith, e, f)
      | inr ((updated, left), f) ↦
          let (ns, ls, us) = names-updated o configs left template updated h f in
          let all_names : map name_of (updated ++ new_containers left)
              ≡ map name_of template ++ names (untaken template configs) =
            map-append updated (new_containers left) ∙ rw (ns, names-new left us, ls) refl in
          let same : updated ++ new_containers left ≡ cs = ground (arith, e, f) in
          rw⁻¹ same all_names
    ]
