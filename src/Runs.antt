-- ===== src/Runs.antt =====
-- The runs of the chat graph (apps/wotbot/src/wotbot/core/agent_runs.py).
pub mod Interrupt
pub mod Partial
pub mod Fork
pub mod Registry
pub mod Tests
