-- ===== src/CodeExecutor.antt =====
-- The code executor (apps/code-executor/code_executor/session_pool.py): the pool of worker
-- processes that run the code of the chat sessions.
pub mod Pool
pub mod Calls
pub mod Table
pub mod Isolation
pub mod Owned
pub mod Release
pub mod Tests
