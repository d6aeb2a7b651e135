-- ===== src/Logging.antt =====
-- utilities/logger.py: the processors of an event, the filter of duplicates, the banner, and the
-- handlers that set-up and the patched `addHandler` leave on the loggers.
pub mod Filter
pub mod Events
pub mod Loggers
pub mod Banner
mod Tests
