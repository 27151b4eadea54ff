-- ===== src/Chain.antt =====
-- The chain that deposits come from and withdrawals go to (internal/chain).
pub mod Signer
pub mod Listener
mod Tests
