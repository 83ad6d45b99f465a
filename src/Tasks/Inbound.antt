-- ===== src/Tasks/Inbound.antt =====
-- processInboundRequest (pilot-module/src/pilot_a2a_inbox.cpp), method by method.
pub mod Request
pub mod Limits
pub mod Prompt
pub mod Skills
pub mod Process
pub mod Ownership
pub mod Outsiders
pub mod Authenticate
pub mod Senders
pub mod Handle
