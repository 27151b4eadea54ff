-- ===== src/Api/Payouts/Laws.antt =====
-- No sequence of calls hands a request to the signer twice.
pub mod Orderly
pub mod Once
pub mod Settled
