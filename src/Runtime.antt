-- ===== src/Runtime.antt =====
-- utilities/serving_runtime.py: serving runtimes that are made from a template.
pub mod Values
pub mod Containers
pub mod Spec
mod Tests
