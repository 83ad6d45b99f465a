-- ===== src/Settings.antt =====
-- The settings of an agent: metaConfigure (pilot-module/src/pilot_meta.cpp) and their loading by
-- loadIdentity (pilot-module/src/pilot_identity.cpp).
pub mod Parse
pub mod Keys
pub mod Configure
pub mod Load
pub mod Identity
pub mod Fields
pub mod Readable
pub mod Written
pub mod Restart
pub mod Reloaded
pub mod Unreadable
