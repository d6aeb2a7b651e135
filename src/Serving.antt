-- ===== src/Serving.antt =====
-- utilities/inference_utils.py and utilities/general.py: what an inference service is created with,
-- how a test reaches it, and what it is sent.
pub mod Modes
pub mod Storage
pub mod Spec
pub mod Readiness
pub mod Exposure
pub mod Ports
pub mod Body
pub mod Running
pub mod Output
mod Tests
