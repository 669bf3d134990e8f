-- ===== src/Auth.antt =====
-- Authentication: revoked tokens, bootstrap tokens, pairing codes and scopes (internal/auth).
pub mod Revocation
pub mod Scopes
pub mod Bootstrap
pub mod Pairing
mod Examples
