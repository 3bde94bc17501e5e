-- ===== src/Jobs/Outcomes.antt =====
-- What the transactions on runs do, on all of their branches and one after another.
pub mod Starts
pub mod Replies
pub mod Finishes
pub mod Held
pub mod Cancels
pub mod Races
pub mod Waiting
pub mod Sweeps
