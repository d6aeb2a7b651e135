-- ===== src/Support.antt =====
-- utilities/path_utils.py, utilities/jira.py, utilities/monitoring.py, utilities/operator_utils.py,
-- utilities/certificates_utils.py and utilities/user_utils.py.
pub mod Paths
pub mod Issues
pub mod Metrics
pub mod Users
mod Tests
