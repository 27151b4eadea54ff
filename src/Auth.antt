-- ===== src/Auth.antt =====
-- Signing in (internal/auth).
pub mod Nonces
mod Tests
