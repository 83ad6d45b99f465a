-- ===== src/Owner.antt =====
-- The owner channel: sendToOwner and deliverToOwner of pilot-module/src/pilot_owner.cpp, and
-- verifyOwnerMessage of pilot-module/src/pilot_impl.cpp.
pub mod Channel
pub mod Verify
pub mod Nonces
pub mod Ruled
pub mod Replay
