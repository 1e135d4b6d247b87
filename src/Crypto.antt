-- ===== src/Crypto.antt =====
-- src/crypto: what is signed.
pub mod Jcs
