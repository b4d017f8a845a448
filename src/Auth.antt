-- ===== src/Auth.antt =====
-- src/auth: sessions, the hash, and passwords.
pub mod Session
pub mod Sha256
pub mod Password
