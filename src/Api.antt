-- ===== src/Api.antt =====
-- The handlers of the HTTP service (internal/api): what they check, and what they do with the ledger,
-- the treasury's signer and the matching engine. The session that a token stands for, and decoded
-- request bodies, are arguments.
pub mod Payouts
pub mod Swaps
pub mod Engine
mod Tests
use dex_backend.Base.{ℕ}
use dex_backend.Result.{Err}
use dex_backend.Text.Bytes.{Str}

-- The claims of a session.
pub record Claims : Type 0 where
  pub user_id : ℕ
  pub wallet_address : Str
