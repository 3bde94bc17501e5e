-- ===== src/Discovery.antt =====
-- Discovery of Things (apps/wotbot/src/wotbot/discovery).
pub mod Refresh
pub mod Tests
