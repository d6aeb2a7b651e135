-- ===== src/Session/Setup/Distribution.antt =====
-- What a configuration that was accepted holds.
use opendatahub_tests.Shared.{
  String, ◌≡◌, refl, sym, ap, ◌∙◌, true, Option, some, arith, ◌==◌, ◌⊎◌, inl, inr, Bool-cases,
  Option-cases, starts_with, eq_iff,
}
use opendatahub_tests.Session.Setup.{
  Result, ok, err, Cluster, GlobalConfig, truthy, set_distribution, get_operator_distribution,
  get_dsci_applications_namespace, updated_global_config, ◌>>=◌,
}

truthy-ok : (o : Option String) (s : String) → truthy o ≡ ok s → o ≡ some s
unfolding truthy
truthy-ok o s h = ground arith

bind-ok :
    {A B : Type 0} (first : Result A) (next : A → Result B) {result : B}
    → (first >>= next) ≡ ok result
    → (value : A) × (first ≡ ok value) × (next value ≡ ok result)
bind-ok (err e) next h = ground arith
bind-ok (ok value) next h = (value, refl, h)

namespace-ok :
    (cluster : Cluster) (ns : String)
    → get_dsci_applications_namespace cluster ≡ ok ns
    → cluster.dsci ≡ some (some ns)
unfolding get_dsci_applications_namespace
namespace-ok cluster ns h = elim (Option-cases cluster.dsci) [
  | inl absent ↦ ground arith
  | inr (found, e) ↦ ground (arith, truthy-ok found ns)
]

-- The two ways in which a distribution is accepted.
abbrev pub Accepted : String → GlobalConfig → GlobalConfig → Type 0
Accepted name before after =
    ((name ≡ "Open Data Hub")
      × (after.distribution ≡ "upstream")
      × (after.operator_namespace ≡ "opendatahub-operators"))
    ⊎ ((starts_with name "OpenShift AI" ≡ true)
        × (after.distribution ≡ "downstream")
        × (after.operator_namespace ≡ before.operator_namespace))

set_distribution-ok :
    (name : String) (before after : GlobalConfig)
    → set_distribution name before ≡ ok after
    → Accepted name before after
unfolding set_distribution
set_distribution-ok name before after h = elim (Bool-cases (name == "Open Data Hub")) [
  | inl odh ↦ inl (ground (arith, eq_iff name "Open Data Hub"), ground arith, ground arith)
  | inr other ↦ inr (ground arith, ground arith, ground arith)
]

with_namespace :
    (name ns : String) (before config after : GlobalConfig)
    → Accepted name before config
    → (let written : Result GlobalConfig = ok (record config { applications_namespace = ns }) in
        written ≡ ok after)
    → (after.applications_namespace ≡ ns) × Accepted name before after
with_namespace name ns before config after (inl (a, b, c)) e =
    (ground arith, inl (a, ground arith, ground arith))
with_namespace name ns before config after (inr (a, b, c)) e =
    (ground arith, inr (a, ground arith, ground arith))

-- A session that starts has read the release name and the namespace from the cluster, and its
-- distribution follows from that name: upstream with the upstream operator's namespace, or
-- downstream with the namespace that was configured.
pub updated_global_config-ok :
    (cluster : Cluster) (before after : GlobalConfig)
    → updated_global_config cluster before ≡ ok after
    → (cluster.dsci ≡ some (some after.applications_namespace))
      × ((name : String) × (cluster.release_name ≡ some name) × Accepted name before after)
unfolding updated_global_config get_operator_distribution
updated_global_config-ok cluster before after h =
    let (name, named, h₁) = bind-ok (truthy cluster.release_name) _ h in
    let (config, chosen, h₂) = bind-ok (set_distribution name before) _ h₁ in
    let (ns, found, h₃) = bind-ok (get_dsci_applications_namespace cluster) _ h₂ in
    let (same, accepted) =
      with_namespace name ns before config after (set_distribution-ok name before config chosen)
        h₃ in
    (
      namespace-ok cluster ns found ∙ ap (λ (t : String). some (some t)) (sym same),
      (name, truthy-ok cluster.release_name name named, accepted),
    )
