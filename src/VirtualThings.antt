-- ===== src/VirtualThings.antt =====
-- Virtual Things (apps/wotbot/src/wotbot/virtual_things): the store of their definitions and states,
-- and the dispatcher that runs their handlers.
pub mod Tables
pub mod Store
pub mod Dispatcher
pub mod Lifecycle
pub mod SharedState
pub mod Emission
pub mod Bindings
pub mod Tests
