-- ===== src/Cluster/Namespaces.antt =====
-- `create_ns` and `wait_for_serverless_pods_deletion` of utilities/infra.py. A context manager is
-- the list of its calls, of which the body is one.
pub mod Labels
pub mod Teardown
use opendatahub_tests.Shared.{
  ℕ, String, Bool, true, false, not, ◌&&◌, ◌||◌, Option, none, some, List, [], ◌∷◌, ◌++◌, ◌==◌,
  if◌then◌else◌, lookup, put, is_empty, given,
}
use opendatahub_tests.Serving.Modes.{serverless, deployment_mode_annotation, is_mode}
use opendatahub_tests.Pods.Names.{generate_random_name}

abbrev pub Dict : Type 0
Dict = List (String × String)

pub record Arguments : Type 0 where
  pub name : Option String
  pub unprivileged_client : Bool
  pub teardown : Bool
  pub delete_timeout : ℕ
  pub labels : Option Dict
  pub ns_annotations : Option Dict
  pub model_mesh_enabled : Bool
  pub add_dashboard_label : Bool
  pub add_kueue_label : Bool
  pub randomize_name : Bool

-- The parameters of the test's request; `none`: the key is missing.
pub record Params : Type 0 where
  pub name : Option (Option String)
  pub annotations : Option (Option Dict)
  pub modelmesh_enabled : Option Bool
  pub add_dashboard_label : Option Bool
  pub add_kueue_label : Option Bool
  pub randomize_name : Option Bool

-- `param.get(key, default)`
unfoldable pub get_param {ℓ} : {A : Type ℓ} → Option A → A → A
get_param none default_ = default_
get_param (some value) default_ = value

unfoldable pub with_params : Option Params → Arguments → Arguments
unfolding get_param
with_params none a = a
with_params (some p) a = record {
  name = get_param p.name a.name;
  unprivileged_client = a.unprivileged_client;
  teardown = a.teardown;
  delete_timeout = a.delete_timeout;
  labels = a.labels;
  ns_annotations = get_param p.annotations a.ns_annotations;
  model_mesh_enabled = get_param p.modelmesh_enabled a.model_mesh_enabled;
  add_dashboard_label = get_param p.add_dashboard_label a.add_dashboard_label;
  add_kueue_label = get_param p.add_kueue_label a.add_kueue_label;
  randomize_name = get_param p.randomize_name a.randomize_name;
}

-- The name, with the hexadecimal digits of the random one. `none` where neither is given.
unfoldable pub namespace_name : String → Arguments → Option String
namespace_name hex a =
    let base_name : String = elim a.name [
      | none ↦ "test-namespace"
      | some n ↦ if n == "" then "test-namespace" else n
    ] in
    if a.randomize_name then generate_random_name base_name 4 hex else a.name

-- `labels or {}`
unfoldable pub or_empty : Option Dict → Dict
or_empty none = []
or_empty (some labels) = labels

add_label : Bool → String → Dict → Dict
add_label asked key labels = if asked then put key "true" labels else labels

unfoldable pub namespace_labels : Arguments → Dict
unfolding add_label or_empty
namespace_labels a = add_label a.add_kueue_label "kueue.openshift.io/managed" (
    add_label a.add_dashboard_label "opendatahub.io/dashboard"
      (add_label a.model_mesh_enabled "modelmesh-enabled" (or_empty a.labels)))

-- The dictionary of the caller afterwards: it is the one that the labels were added to, unless it
-- was empty.
unfoldable pub caller_labels : Arguments → Option Dict
unfolding namespace_labels add_label or_empty
caller_labels a = if is_empty (or_empty a.labels) then a.labels else some (namespace_labels a)

-- What the code reads from a pod of the namespace.
pub data NamespacePod : Type 0 where
  gone missing : NamespacePod
  -- its name, and its annotations, if it has any
  there : String → Option Dict → NamespacePod

-- The pods that are waited for, and whether the loop comes to its end: a pod without annotations
-- raises an error that is not caught.
unfoldable pub wait_for_serverless_pods_deletion : List NamespacePod → List String × Bool
wait_for_serverless_pods_deletion [] = ([], true)
wait_for_serverless_pods_deletion (gone ∷ pods) = wait_for_serverless_pods_deletion pods
wait_for_serverless_pods_deletion (missing ∷ pods) = wait_for_serverless_pods_deletion pods
wait_for_serverless_pods_deletion (there name none ∷ pods) = ([], false)
wait_for_serverless_pods_deletion (there name (some annotations) ∷ pods) =
    let (waited, ended) = wait_for_serverless_pods_deletion pods in
    if is_mode (lookup deployment_mode_annotation annotations) serverless
    then (name ∷ waited, ended)
    else (waited, ended)

pub record NamespaceKwargs : Type 0 where
  pub name : Option String
  pub teardown : Bool
  pub delete_timeout : ℕ
  pub label : Dict
  pub annotations : Option Dict

unfoldable pub namespace_kwargs : String → Arguments → NamespaceKwargs
unfolding namespace_name namespace_labels add_label or_empty
namespace_kwargs hex a = record {
  name = namespace_name hex a;
  teardown = a.teardown;
  delete_timeout = a.delete_timeout;
  label = namespace_labels a;
  annotations = if is_empty (or_empty a.ns_annotations) then none else a.ns_annotations;
}

pub data Call : Type 0 where
  -- the resource's own context manager, which deletes it on leaving if it was asked to
  enter_namespace : NamespaceKwargs → Call
  leave_namespace : Bool → Call
  wait_active body : Call
  deploy_project : NamespaceKwargs → Call
  patch_labels : Option String → Dict → Call
  wait_deleted : List String → Call
  clean_up : Call

-- What happens meanwhile: whether the namespace becomes active, whether the body raises, and the
-- pods that are listed.
pub record Course : Type 0 where
  pub active : Bool
  pub body_raises : Bool
  pub pods : List NamespacePod

in_namespace : Bool → Course → List Call
unfolding wait_for_serverless_pods_deletion
in_namespace teardown c =
    if not c.active
    then wait_active ∷ []
    else if c.body_raises || not teardown
    then wait_active ∷ body ∷ []
    else wait_active ∷ body ∷ wait_deleted (wait_for_serverless_pods_deletion c.pods).0 ∷ []

in_project : Bool → Course → List Call
unfolding wait_for_serverless_pods_deletion
in_project teardown c =
    if c.body_raises || not teardown
    then body ∷ []
    else let (waited, ended) = wait_for_serverless_pods_deletion c.pods in
      body ∷ wait_deleted waited ∷ (if ended then clean_up ∷ [] else [])

unfoldable pub create_ns : String → Option Params → Arguments → Course → List Call
unfolding in_namespace in_project namespace_kwargs with_params get_param namespace_name
    namespace_labels add_label or_empty wait_for_serverless_pods_deletion
create_ns hex request arguments c =
    let a = with_params request arguments in
    let kwargs = namespace_kwargs hex a in
    if not a.unprivileged_client
    then enter_namespace kwargs ∷ (in_namespace a.teardown c ++ (leave_namespace a.teardown ∷ []))
    else deploy_project kwargs
      ∷ ((if is_empty kwargs.label then [] else patch_labels kwargs.name kwargs.label ∷ [])
          ++ in_project a.teardown c)
