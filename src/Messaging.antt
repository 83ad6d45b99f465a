-- ===== src/Messaging.antt =====
-- Direct messages, groups and shared file keys (pilot-module/src/pilot_messaging.cpp).
pub mod Mailbox
pub mod Members
pub mod Groups
pub mod Receive
pub mod Send
pub mod Kept
pub mod Delivered
pub mod Flow
pub mod Joined
