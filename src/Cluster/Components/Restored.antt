-- ===== src/Cluster/Components/Restored.antt =====
-- The states of the components while the body runs, and after it.
use opendatahub_tests.Shared.{
  String, Bool, true, false, not, ◌&&◌, Option, none, some, [], ◌∷◌, ◌==◌, lookup, any, ◌≡◌, refl,
  arith, eq_iff, Option-cases, inl, inr, and_parts, if◌then◌else◌,
}
use opendatahub_tests.Cluster.Components.{States, ResourceEditor, plan, update_components_in_dsc}

abbrev pub is_there : Option String → Bool
is_there none = false
is_there (some state) = true

-- No component is named twice, as in a dictionary.
abbrev pub distinct : States → Bool
distinct [] = true
distinct ((name, state) ∷ rest) =
    not (any (λ (c : String × String). c.0 == name) rest) && distinct rest

lookup-absent :
    (k : String) (m : States)
    → any (λ (c : String × String). c.0 == k) m ≡ false
    → lookup k m ≡ none
lookup-absent k [] h = refl
lookup-absent k ((j, v) ∷ m) h = ground (arith, h, lookup-absent k m)

-- What the patch asks for: the states that differ.
lookup-plan :
    (components s patch originals : States) (k : String)
    → distinct components ≡ true
    → plan components s ≡ some (patch, originals)
    → elim (lookup k patch) as (λ _. Option String) [ none ↦ lookup k s | some v ↦ some v ]
      ≡ elim (lookup k components) as (λ _. Option String) [ none ↦ lookup k s | some v ↦ some v ]
unfolding plan
lookup-plan [] s patch originals k d e = ground (arith, e)
lookup-plan ((name, desired) ∷ rest) s patch originals k d e =
    let (new, later) =
      and_parts (not (any (λ (c : String × String). c.0 == name) rest)) (distinct rest) d in
    elim (Option-cases (lookup name s)) [
      | inl none_there ↦ ground (arith, e, none_there)
      | inr (orig, there) ↦ elim (Option-cases (plan rest s)) [
        | inl p ↦ ground (arith, e, there, p)
        | inr ((patch_rest, originals_rest), p) ↦ ground (
          arith,
          e,
          there,
          p,
          new,
          eq_iff name k,
          eq_iff orig desired,
          lookup-absent name rest,
          lookup-plan rest s patch_rest originals_rest k later p,
        )
      ]
    ]

-- Another state is asked for than the component has.
abbrev pub differs : String → States → States → Bool
differs k components s = elim (lookup k components) as (λ _. Bool) [
  | none ↦ false
  | some desired ↦ elim (lookup k s) as (λ _. Bool) [
    | none ↦ false
    | some orig ↦ not (orig == desired)
  ]
]

-- The components that the patch changes.
patched-plan :
    (components s patch originals : States) (k : String)
    → distinct components ≡ true
    → plan components s ≡ some (patch, originals)
    → is_there (lookup k patch) ≡ differs k components s
unfolding plan
patched-plan [] s patch originals k d e = ground (arith, e)
patched-plan ((name, desired) ∷ rest) s patch originals k d e =
    let (new, later) =
      and_parts (not (any (λ (c : String × String). c.0 == name) rest)) (distinct rest) d in
    elim (Option-cases (lookup name s)) [
      | inl none_there ↦ ground (arith, e, none_there)
      | inr (orig, there) ↦ elim (Option-cases (plan rest s)) [
        | inl p ↦ ground (arith, e, there, p)
        | inr ((patch_rest, originals_rest), p) ↦ ground (
          arith,
          e,
          there,
          p,
          new,
          eq_iff name k,
          eq_iff orig desired,
          lookup-absent name rest,
          patched-plan rest s patch_rest originals_rest k later p,
        )
      ]
    ]

module _ (editor : ResourceEditor) (reached : States → String → Bool) where
  -- If no component is named twice and the body runs, a component for which another state than its own
  -- was asked for has in the end the state that it had in the beginning, whatever the body does to it
  -- and whether or not it raises, and any other component the state in which the body leaves it. If the
  -- body does not run, since a component is unknown or a wait fails, every component has the state that
  -- it had.
  pub final-update_components_in_dsc :
      (components : States) (wait : Bool) (body : States → Bool × States) (s : States) (k : String)
      → distinct components ≡ true
      → let run = update_components_in_dsc editor reached components wait body s in
        lookup k run.final_ ≡ elim run.entered as (λ _. Option String) [
          | none ↦ lookup k s
          | some t ↦ if differs k components s then lookup k s else lookup k (body t).1
        ]
  unfolding update_components_in_dsc
  final-update_components_in_dsc components wait body s k d =
      elim (Option-cases (plan components s)) [
        | inl e ↦ ground (arith, e)
        | inr (([], originals), e) ↦ ground (arith, e, patched-plan components s [] originals k d e)
        | inr ((change ∷ patch, originals), e) ↦
            let patched = editor.enter (change ∷ patch) s in
            ground (
              arith,
              e,
              patched-plan components s (change ∷ patch) originals k d e,
              editor.lookup-enter (change ∷ patch) s k,
              editor.lookup-leave (change ∷ patch) s patched k,
              editor.lookup-leave (change ∷ patch) s (body patched).1 k,
            )
      ]

  -- The body runs, if it does, with each component that was named in the state that was asked for,
  -- and with every other component in the state that it had.
  pub entered-update_components_in_dsc :
      (components : States) (wait : Bool) (body : States → Bool × States) (s t : States)
      (k : String)
      → (update_components_in_dsc editor reached components wait body s).entered ≡ some t
      → distinct components ≡ true
      → lookup k t
        ≡ elim (lookup k components) as (λ _. Option String) [ none ↦ lookup k s | some v ↦ some v ]
  unfolding update_components_in_dsc
  entered-update_components_in_dsc components wait body s t k h d =
      elim (Option-cases (plan components s)) [
        | inl e ↦ ground (arith, e, h)
        | inr ((patch, originals), e) ↦ ground (
          arith,
          e,
          h,
          lookup-plan components s patch originals k d e,
          editor.lookup-enter patch s k,
        )
      ]
