-- ===== src/OpenAi.antt =====
-- utilities/plugins/openai_plugin.py: the client of the endpoints that follow OpenAI's interface.
pub mod Requests
pub mod Responses
mod Tests
