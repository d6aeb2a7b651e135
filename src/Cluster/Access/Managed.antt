-- ===== src/Cluster/Access/Managed.antt =====
-- Which clusters are managed.
use opendatahub_tests.Shared.{String, ◌&&◌, some, List, [], ◌∷◌, ◌==◌, any, any-keep, ◌≡◌, refl}
use opendatahub_tests.Cluster.Access.{
  Tags, Entry, field, plain, tagged_managed, first_tags, is_managed_cluster,
}

-- The tags of the first entry that has any.
pub leading_tags : List Entry → Tags
leading_tags [] = []
leading_tags (plain ∷ entries) = leading_tags entries
leading_tags (field [] ∷ entries) = leading_tags entries
leading_tags (field (tag ∷ tags) ∷ entries) = tag ∷ tags

-- A cluster is managed exactly if among the tags of the first entry that has any there is one with
-- Red Hat's key and the value "true".
pub is_managed_cluster-eq :
    (entries : List Entry)
    → is_managed_cluster (some entries)
      ≡ any
          (λ (t : String × String). t.0 == "red-hat-managed" && t.1 == "true")
          (leading_tags entries)
unfolding is_managed_cluster first_tags tagged_managed leading_tags
is_managed_cluster-eq [] = refl
is_managed_cluster-eq (plain ∷ entries) = is_managed_cluster-eq entries
is_managed_cluster-eq (field [] ∷ entries) = is_managed_cluster-eq entries
is_managed_cluster-eq (field (tag ∷ tags) ∷ entries) =
    any-keep (λ (t : String × String). t.0 == "red-hat-managed")
      (λ (t : String × String). t.1 == "true") (tag ∷ tags)
