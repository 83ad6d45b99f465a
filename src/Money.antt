-- ===== src/Money.antt =====
-- What the operations do to money: the transfers that they hand to the wallet, and the rows of
-- spend_requests.
pub mod Frame
pub mod Idle
pub mod Rows
pub mod Execute
pub mod Updates
pub mod Operations
pub mod Sweeps
pub mod Sends
pub mod Cards
pub mod Settle
pub mod Quiet
pub mod Inbound
pub mod Arrivals
pub mod Runs
pub mod Once
pub mod Approval
pub mod Stale
pub mod Limits
pub mod Payments
pub mod Restart
pub mod Counted
pub mod Budget
pub mod Prices
pub mod Canceled
pub mod Submitted
