-- ===== src/Rdf.antt =====
-- The graph store's helpers (apps/wotbot/src/wotbot/rdf).
pub mod SparqlText
pub mod Tests
