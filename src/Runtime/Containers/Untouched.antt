-- ===== src/Runtime/Containers/Untouched.antt =====
-- The keys of a container that an update leaves alone.
use opendatahub_tests.Shared.{
  String, false, ◌&&◌, ◌==◌, not, ◌||◌, List, [], ◌∷◌, if◌then◌else◌, lookup, put, lookup-put, keep,
  has, in_text, lower, ◌≡◌, refl, arith, Bool-cases, Option-cases, inl, inr, ◌∙◌, ◌⊎◌,
}
use opendatahub_tests.Runtime.Values.{
  Error, Env, Result, ok, err, text, texts, envs, ports, nested, Container, grpc_ports, raw_ports,
  grpc_command, name_of,
}
use opendatahub_tests.Runtime.Containers.{
  Options, is_enabled, env_name, loop_envs, runtime_grpc_port, replace_last, set_first_port,
  update_envs, resources_for, update_resources, update_image, without_model, set_command,
  single_entrypoint, support_endpoints, update_container,
}

-- The keys that the options change.
abbrev pub touched : List String
touched = "env" ∷ "ports" ∷ "resources" ∷ "image" ∷ "args" ∷ "command" ∷ []

set_first_port-lookup :
    (c u : Container) (k : String)
    → has touched k ≡ false
    → set_first_port c ≡ ok u
    → lookup k u ≡ lookup k c
unfolding set_first_port
set_first_port-lookup c u k out h = elim (Option-cases (lookup "ports" c)) [
  | inl e ↦ ground (arith, e, h)
  | inr (text t, e) ↦ ground (arith, e, h)
  | inr (texts t, e) ↦ ground (arith, e, h)
  | inr (envs t, e) ↦ ground (arith, e, h)
  | inr (ports [], e) ↦ ground (arith, e, h)
  | inr (ports (p ∷ ps), e) ↦
      ground (arith, e, h, out, lookup-put "ports" k (ports (runtime_grpc_port ∷ ps)) c)
  | inr (nested t, e) ↦ ground (arith, e, h)
]

pub Fallible-cases {ℓ} :
    {A : Type ℓ} (r : Result A) → ((e : Error) × (r ≡ err e)) ⊎ ((a : A) × (r ≡ ok a))
Fallible-cases (err e) = inl (e, refl)
Fallible-cases (ok a) = inr (a, refl)

loop_envs-lookup :
    (o : Options) (list updated : List Env) (c u : Container) (k : String)
    → has touched k ≡ false
    → loop_envs o list c ≡ ok (updated, u)
    → lookup k u ≡ lookup k c
unfolding loop_envs
loop_envs-lookup o [] updated c u k out h = ground (arith, h)
loop_envs-lookup o (env ∷ rest) updated c u k out h = elim (Fallible-cases (env_name env)) [
  | inl (raised, e) ↦ ground (arith, e, h)
  | inr (name, e) ↦
      let open_ = name == "RUNTIME_GRPC_ENABLED" && is_enabled o.enable_grpc in
      elim (Bool-cases open_) [
        | inr b ↦ elim (Fallible-cases (loop_envs o rest c)) [
          | inl (raised, f) ↦ ground (arith, e, b, f, h)
          | inr ((envs_, last), f) ↦
              ground (arith, e, b, f, h, loop_envs-lookup o rest envs_ c last k out f)
        ]
        | inl b ↦ elim (Fallible-cases (set_first_port c)) [
          | inl (raised, g) ↦ ground (arith, e, b, g, h)
          | inr (d, g) ↦ elim (Fallible-cases (loop_envs o rest d)) [
            | inl (raised, f) ↦ ground (arith, e, b, g, f, h)
            | inr ((envs_, last), f) ↦ ground (
              arith,
              e,
              b,
              g,
              f,
              h,
              loop_envs-lookup o rest envs_ d last k out f,
              set_first_port-lookup c d k out g,
            )
          ]
        ]
      ]
]

update_envs-lookup :
    (o : Options) (c u : Container) (k : String)
    → has touched k ≡ false
    → update_envs o c ≡ ok u
    → lookup k u ≡ lookup k c
unfolding update_envs
update_envs-lookup o c u k out h = elim (Option-cases (lookup "env" c)) [
  | inl e ↦ ground (arith, e, h)
  | inr (text t, e) ↦ ground (arith, e, h)
  | inr (texts t, e) ↦ ground (arith, e, h)
  | inr (ports t, e) ↦ ground (arith, e, h)
  | inr (nested t, e) ↦ ground (arith, e, h)
  | inr (envs list, e) ↦ elim (Fallible-cases (loop_envs o list c)) [
    | inl (raised, f) ↦ ground (arith, e, f, h)
    | inr ((updated, last), f) ↦ ground (
      arith,
      e,
      f,
      h,
      out,
      lookup-put "env" k (envs updated) last,
      loop_envs-lookup o list updated c last k out f,
    )
  ]
]

update_resources-lookup :
    (o : Options) (c : Container) (k : String)
    → has touched k ≡ false
    → lookup k (update_resources o c) ≡ lookup k c
unfolding update_resources
update_resources-lookup o c k out =
    ground (arith, out, lookup-put "resources" k (nested (resources_for o.resources (name_of c))) c)

update_image-lookup :
    (o : Options) (c : Container) (k : String)
    → has touched k ≡ false
    → lookup k (update_image o c) ≡ lookup k c
unfolding update_image
update_image-lookup o c k out = elim (Option-cases o.runtime_image) [
  | inl e ↦ ground (arith, e)
  | inr (image, e) ↦ ground (arith, e, out, lookup-put "image" k (text image) c)
]

without_model-lookup :
    (c u : Container) (k : String)
    → has touched k ≡ false
    → without_model c ≡ ok u
    → lookup k u ≡ lookup k c
unfolding without_model
without_model-lookup c u k out h = elim (Option-cases (lookup "args" c)) [
  | inl e ↦ ground (arith, e, h)
  | inr (text t, e) ↦ ground (arith, e, h)
  | inr (envs t, e) ↦ ground (arith, e, h)
  | inr (ports t, e) ↦ ground (arith, e, h)
  | inr (nested t, e) ↦ ground (arith, e, h)
  | inr (texts args, e) ↦ ground (
    arith,
    e,
    h,
    out,
    lookup-put "args" k (texts (keep (λ arg. not (in_text "--model" arg)) args)) c,
  )
]

set_command-lookup :
    (c u : Container) (k : String)
    → has touched k ≡ false
    → set_command c ≡ ok u
    → lookup k u ≡ lookup k c
unfolding set_command
set_command-lookup c u k out h = elim (Option-cases (lookup "command" c)) [
  | inl e ↦ ground (arith, e, h)
  | inr (text t, e) ↦ ground (arith, e, h)
  | inr (envs t, e) ↦ ground (arith, e, h)
  | inr (ports t, e) ↦ ground (arith, e, h)
  | inr (nested t, e) ↦ ground (arith, e, h)
  | inr (texts [], e) ↦ ground (arith, e, h)
  | inr (texts (x ∷ rest), e) ↦
      ground (arith, e, h, out, lookup-put "command" k (texts (replace_last grpc_command x rest)) c)
]

put_ports-lookup :
    (c : Container) (k d : String)
    → has touched k ≡ false
    → lookup k (
        if in_text "grpc" d
        then put "ports" (ports grpc_ports) c
        else if in_text "raw" d
        then put "ports" (ports raw_ports) c
        else c)
      ≡ lookup k c
put_ports-lookup c k d out = ground (
  arith,
  out,
  lookup-put "ports" k (ports grpc_ports) c,
  lookup-put "ports" k (ports raw_ports) c,
)

single_entrypoint-lookup :
    (d : String) (c u : Container) (k : String)
    → has touched k ≡ false
    → single_entrypoint d c ≡ ok u
    → lookup k u ≡ lookup k c
unfolding single_entrypoint
single_entrypoint-lookup d c u k out h = elim (Fallible-cases (without_model c)) [
  | inl (raised, e) ↦ ground (arith, e, h)
  | inr (a, e) ↦
      let first = without_model-lookup c a k out e in
      elim (Bool-cases (in_text "grpc" d || in_text "raw" d)) [
        | inr b ↦ ground (arith, e, h, b, first, put_ports-lookup a k d out)
        | inl b ↦ elim (Fallible-cases (set_command a)) [
          | inl (raised, f) ↦ ground (arith, e, h, b, f)
          | inr (v, f) ↦
              ground (
                arith,
                e,
                h,
                b,
                f,
                first,
                set_command-lookup a v k out f,
                put_ports-lookup v k d out,
              )
        ]
      ]
]

support_endpoints-lookup :
    (o : Options) (c u : Container) (k : String)
    → has touched k ≡ false
    → support_endpoints o c ≡ ok u
    → lookup k u ≡ lookup k c
unfolding support_endpoints
support_endpoints-lookup o c u k out h =
    elim (Bool-cases
      (not o.support_tgis_open_ai_endpoints || not (in_text "vllm" o.template_name))) [
        | inl b ↦ ground (arith, b, h)
        | inr b ↦ elim (Option-cases o.runtime_image) [
          | inl e ↦ ground (arith, b, e, h)
          | inr (image, e) ↦ elim (Option-cases o.deployment_type) [
            | inl f ↦ ground (arith, b, e, f, h)
            | inr (d, f) ↦ single_entrypoint-lookup (lower d) c u k out (ground (arith, b, e, f, h))
          ]
        ]
      ]

-- What the options do to a container of the template changes no key but its environment, ports,
-- resources, image, arguments and command.
pub update_container-lookup :
    (o : Options) (c u : Container) (k : String)
    → has touched k ≡ false
    → update_container o c ≡ ok u
    → lookup k u ≡ lookup k c
unfolding update_container
update_container-lookup o c u k out h = elim (Fallible-cases (update_envs o c)) [
  | inl (raised, e) ↦ ground (arith, e, h)
  | inr (a, e) ↦
      support_endpoints-lookup o (update_image o (update_resources o a)) u k out
        (ground (arith, e, h))
      ∙ update_image-lookup o (update_resources o a) k out
      ∙ update_resources-lookup o a k out
      ∙ update_envs-lookup o c a k out e
]
