-- ===== src/Labeler.antt =====
-- .github/workflows/scripts/pr_workflow.py: the job that labels pull requests.
pub mod Constants
pub mod Client
pub mod Size
pub mod Review
pub mod Comment
pub mod Run
mod Tests
