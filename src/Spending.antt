-- ===== src/Spending.antt =====
-- The spending state machine of pilot-module/src/pilot_spending.cpp.
pub mod Recipient
pub mod Amount
pub mod Ledger
pub mod Execute
pub mod Approve
pub mod Expire
pub mod Send
pub mod Recover
pub mod Encoding
pub mod Rails
pub mod Balance
pub mod Numbers
