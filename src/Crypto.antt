-- ===== src/Crypto.antt =====
-- Texts and keys of pilot-module/src/pilot_crypto.cpp: the hex forms, the sealed messages and the
-- secrets at rest. OpenSSL is a parameter.
pub mod Hex
pub mod Cipher
pub mod Formats
pub mod Sealed
