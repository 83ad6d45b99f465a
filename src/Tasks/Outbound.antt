-- ===== src/Tasks/Outbound.antt =====
-- The tasks that this agent gives to peers (pilot-module/src/pilot_a2a.cpp): their submission, their
-- cancellation and the replies to them.
pub mod Submit
pub mod Cancel
pub mod Reply
