-- ===== src/Tasks.antt =====
-- The A2A tasks.
pub mod Linked
pub mod Settle
pub mod Outbound
pub mod Inbound
pub mod Recover
