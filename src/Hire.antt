-- ===== src/Hire.antt =====
-- Whether strangers may send the agent work, and where it listens.
pub mod Topics
pub mod Listening
pub mod Decisions
pub mod Runs
pub mod Polling
