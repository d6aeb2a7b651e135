-- ===== src/Collector.antt =====
-- utilities/must_gather_collector.py: the directories, the command and the collection.
pub mod Directories
pub mod Command
pub mod Collection
mod Tests
