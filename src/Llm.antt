-- ===== src/Llm.antt =====
-- utilities/llmd_utils.py: the gateway, the services for large language models, and their URLs.
pub mod Arguments
pub mod Service
pub mod Access
mod Tests
