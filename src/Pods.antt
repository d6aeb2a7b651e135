-- ===== src/Pods.antt =====
-- utilities/general.py, utilities/infra.py and utilities/kueue_utils.py: what is read from pods,
-- and the loops that wait for them. A sampler, which calls a function until its time is over, is
-- the list of what the calls returned.
pub mod Images
pub mod Status
pub mod Waiting
pub mod Deployed
pub mod Failures
pub mod Kueue
pub mod Names
mod Tests
