-- ===== src/Cards.antt =====
-- Agent Cards (pilot-module/src/pilot_a2a.cpp): their authenticity, the pins of first contact, the
-- cache of discovered cards and what a payment takes from it.
pub mod Verify
pub mod Cache
pub mod Match
pub mod Pinning
pub mod Arriving
pub mod Genuine
