-- ===== src/Catalog.antt =====
-- tests/model_registry/model_catalog/sorting/utils.py and search/utils.py: whether the catalog's
-- answers are sorted, complete and those of its database, and whether its files are there.
pub mod Sorted
pub mod Split
pub mod Properties
pub mod Accuracy
pub mod Paging
pub mod Compared
pub mod Files
mod Tests
