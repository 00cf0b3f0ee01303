-- ===== src/Security.antt =====
-- internal/security/security.go: tokens, passwords, encrypted secrets and the master key.
pub mod Crypto
pub mod Tokens
pub mod Passwords
pub mod Secrets
pub mod MasterKey
pub mod HexKey
pub mod Envelope
pub mod Verified
pub mod KeySize
