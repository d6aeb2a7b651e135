-- ===== src/Session.antt =====
-- conftest.py: which tests a session runs, their markers, the global configuration, and what is
-- gathered when a test fails.
pub mod Collection
pub mod Markers
pub mod Setup
pub mod Gather
pub mod Operators
mod Tests
