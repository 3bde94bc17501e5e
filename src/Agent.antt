-- ===== src/Agent.antt =====
-- The conversation: the messages of a thread, the repair and the trimming of a prompt
-- (apps/wotbot/src/wotbot/agent/nodes.py), and the bookkeeping of runs (core/agent_runs.py).
pub mod Messages
pub mod Sanitize
pub mod Units
pub mod Trim
mod Tests
