-- ===== src/Cluster.antt =====
-- utilities/infra.py, utilities/data_science_cluster_utils.py and utilities/general.py: the
-- components of the data science cluster, namespaces, secrets and config maps, the sanity check,
-- and what is looked up in the cluster.
pub mod Components
pub mod Reconciled
pub mod Namespaces
pub mod Errors
pub mod Lookups
pub mod Access
pub mod Sanity
pub mod Downloads
pub mod Resources
mod Tests
