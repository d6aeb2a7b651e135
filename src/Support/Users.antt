-- ===== src/Support/Users.antt =====
-- utilities/user_utils.py and utilities/certificates_utils.py: test users, their tokens, and bundles of
-- certificates. What the cluster and the providers answer are arguments.
pub mod Bundles
use Prim.Native.String
use opendatahub_tests.Shared.{
  ℕ, String, Bool, true, false, not, ◌&&◌, ◌||◌, Option, none, some, List, [], ◌∷◌, ◌++◌, ◌==◌,
  if◌then◌else◌, lookup, first, join, starts_with, drop_chars, in_text, given, any,
}
use opendatahub_tests.Cluster.Errors.{Lookup, LookupError, ok, err, value_error, assertion_error}
use opendatahub_tests.Shared.{◌>>=◌}
use opendatahub_tests.Cluster.Access.{login_with_user_password}
use opendatahub_tests.Cluster.Resources.Base64.{b64_encoded_string}

pub record UserTestSession : Type 0 where
  pub idp_name : String
  pub secret_name : String
  pub username : String
  pub password : String
  pub original_user : String
  pub api_server_url : String
  pub has_client : Bool
  pub is_byoidc : Bool

unfoldable pub is_complete : UserTestSession → Bool
is_complete s =
    not (s.idp_name == "")
    && not (s.secret_name == "")
    && not (s.username == "")
    && not (s.password == "")
    && not (s.api_server_url == "")
    && not (s.original_user == "")
    && s.has_client

-- `__post_init__`
unfoldable pub post_init : UserTestSession → Lookup UserTestSession
unfolding is_complete
post_init s = if is_complete s then ok s else err value_error

-- `text.replace("$2b$", "$2y$", 1)`
replace_first : String → String
replace_first String.[] = String.[]
replace_first (String.◌∷◌ c s) =
    let rest = replace_first s in
    if starts_with (String.◌∷◌ c s) "$2b$"
    then join "$2y$" (drop_chars 4 (String.◌∷◌ c s))
    else String.◌∷◌ c rest

-- The line of the file, and its base64; `hashed` is what the hashing library gives.
unfoldable pub create_htpasswd_file : String → String → String × String
unfolding replace_first
create_htpasswd_file username hashed =
    let htpasswd_line = join username (join ":" (join (replace_first hashed) "\n")) in
    (htpasswd_line, b64_encoded_string htpasswd_line)

-- A sample is what the login command writes; a login that fails is retried, and another error ends the
-- wait. `none`: the time is up.
unfoldable pub wait_for_user_creation :
    String → String → String → List (String → String × String) → Option (Lookup Bool)
wait_for_user_creation username password cluster_url [] = none
wait_for_user_creation username password cluster_url (run ∷ samples) =
    elim (login_with_user_password run cluster_url username (some password)) [
      | err raised ↦ some (err raised)
      | ok true ↦ some (ok true)
      | ok false ↦ wait_for_user_creation username password cluster_url samples
    ]

-- The provider of the cluster's authentication.
pub record Provider : Type 0 where
  pub issuer_url : Option String
  pub audiences : List String
  -- a component's name and its client
  pub oidc_clients : List (String × String)

unfoldable pub get_byoidc_issuer_url : Option Provider → Lookup String
get_byoidc_issuer_url none = err assertion_error
get_byoidc_issuer_url (some p) = elim p.issuer_url [
  | none ↦ err assertion_error
  | some url ↦ ok url
]

unfoldable pub get_byoidc_cli_client_id : Option Provider → Lookup String
get_byoidc_cli_client_id none = err assertion_error
get_byoidc_cli_client_id (some p) =
    elim (first (λ (c : String × String). c.0 == "cli") p.oidc_clients) [
      | some (component, client_id) ↦ ok client_id
      | none ↦ elim p.audiences [ [] ↦ ok "oc-cli" | audience ∷ rest ↦ ok audience ]
    ]

-- `config` is the well-known configuration at a URL.
unfoldable pub get_oidc_token_endpoint : (String → List (String × String)) → String → Lookup String
get_oidc_token_endpoint config issuer_url =
    elim (lookup "token_endpoint" (config (join issuer_url "/.well-known/openid-configuration"))) [
      | none ↦ err value_error
      | some endpoint ↦ if endpoint == "" then err value_error else ok endpoint
    ]

-- What is posted to the endpoint, and what is answered.
unfoldable pub get_oidc_tokens :
    Option Provider
    → (String → List (String × String))
    → (String → List (String × String) → List (String × String))
    → String
    → String
    → String
    → String
    → Lookup (String × String)
unfolding get_byoidc_cli_client_id get_byoidc_issuer_url get_oidc_token_endpoint
get_oidc_tokens provider config post username password client_id scope = do
  client ← (if client_id == "" then get_byoidc_cli_client_id provider else ok client_id)
  issuer_url ← get_byoidc_issuer_url provider
  url ← get_oidc_token_endpoint config issuer_url
  let answer = post url (
      ("username", username)
      ∷ ("password", password)
      ∷ ("grant_type", "password")
      ∷ ("client_id", client)
      ∷ ("scope", scope)
      ∷ [])
  (elim (lookup "id_token" answer) as (λ _. Lookup (String × String)) [
    | none ↦ err assertion_error
    | some id_token ↦
        ok (id_token, elim (lookup "refresh_token" answer) [ none ↦ "" | some token ↦ token ])
  ])

-- The certificate of the default ingress controller, which may have a name.
unfoldable pub get_router_cert_secret_name : Option (Option String) → String
get_router_cert_secret_name none = "router-certs-default"
get_router_cert_secret_name (some none) = "router-certs-default"
get_router_cert_secret_name (some (some name)) = name

-- The path of the bundle, and what is written to it; `certificate` is the decoded one of a secret.
unfoldable pub create_ca_bundle_file :
    Option (Option String) → (String → String) → String → String × String
unfolding get_router_cert_secret_name
create_ca_bundle_file default_certificate certificate tmp_base_dir = (
  join tmp_base_dir "/openshift_ca.crt",
  certificate (get_router_cert_secret_name default_certificate),
)

-- Nothing is written on a managed cluster.
unfoldable pub get_ca_bundle :
    Bool → Option (Option String) → (String → String) → String → String × Option String
unfolding create_ca_bundle_file get_router_cert_secret_name
get_ca_bundle managed default_certificate certificate tmp_base_dir =
    if managed
    then ("", none)
    else let (path, bundle) = create_ca_bundle_file default_certificate certificate tmp_base_dir in
      (path, some bundle)

unfoldable pub create_k8s_secret : String → String → List (String × String)
create_k8s_secret key_name content = (key_name, b64_encoded_string content) ∷ []

-- The bundle, from the content of the config map and the router's certificate, if there is one.
unfoldable pub create_ca_bundle_with_router_cert : String → Option String → String
create_ca_bundle_with_router_cert ca_bundle_content none = ca_bundle_content
create_ca_bundle_with_router_cert ca_bundle_content (some router_ca) =
    if in_text router_ca ca_bundle_content
    then ca_bundle_content
    else join ca_bundle_content (join "\n" router_ca)
