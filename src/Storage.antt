-- ===== src/Storage.antt =====
-- Encrypted files on the storage module (pilot-module/src/pilot_storage.cpp).
pub mod Node
pub mod Upload
pub mod Download
pub mod Share
pub mod Restored
pub mod Shared
pub mod Polled
