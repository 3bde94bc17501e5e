-- ===== src/Catalog.antt =====
-- The catalog of Things (apps/wotbot/src/wotbot/catalog).
pub mod Outbox
pub mod Tests
