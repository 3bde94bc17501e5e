-- ===== src/Jobs.antt =====
-- The jobs subsystem (apps/wotbot/src/wotbot/jobs): the tables, the store of runs and the store of
-- definitions.
pub mod Enums
pub mod Records
pub mod Events
pub mod Cancel
pub mod Start
pub mod Reply
pub mod Finish
pub mod Stale
pub mod Schedule
pub mod Definitions
pub mod Invariant
pub mod Lifecycle
pub mod Outcomes
pub mod Tests
