-- ===== src/AgentApi.antt =====
-- The tasks of external agents (apps/wotbot/src/wotbot/agent_api): the types, the replies to a
-- paused task, and the store of tasks with its admission and its listing.
pub mod Types
pub mod Interrupts
pub mod Tables
pub mod Requests
pub mod Admit
pub mod Store
pub mod Lifecycle
pub mod Consistent
pub mod Retries
pub mod Paging
pub mod Tests
