-- ===== src/Ledger/Transfers.antt =====
-- CreditBalance, DebitBalance, TransferBalance and SwapBalance (internal/repo/ledger.go).
pub mod Steps
pub mod Laws
use dex_backend.Base.{ℕ, [], ◌∷◌, not, ltb, ◌==◌, if◌then◌else◌}
use dex_backend.Result.{Result, Err}
use dex_backend.Text.Bytes.{Str}
use dex_backend.Schema.{LedgerDb}
use dex_backend.Tx.{Tx, ◌>>=◌, ◌>>◌, check, transact}
use dex_backend.Ledger.{lock_user, lock_balances_tx, credit_balance_tx, debit_balance_tx}

unfoldable pub credit_balance : ℕ → Str → Str → LedgerDb → Result (Unit {0}) × LedgerDb
credit_balance user asset raw = transact (credit_balance_tx user asset raw)

unfoldable pub debit_balance : ℕ → Str → Str → LedgerDb → Result (Unit {0}) × LedgerDb
debit_balance user asset raw = transact (debit_balance_tx user asset raw)

-- The two ids in ascending order, in which their rows are locked.
abbrev lower_id : ℕ → ℕ → ℕ
lower_id s r = if ltb r s then r else s

abbrev higher_id : ℕ → ℕ → ℕ
higher_id s r = if ltb r s then s else r

transfer_balance_tx : ℕ → ℕ → Str → Str → Tx LedgerDb (Unit {0})
transfer_balance_tx sender recipient asset raw = do
  check (not (sender == recipient)) Err.same_user
  lock_user (lower_id sender recipient)
  lock_user (higher_id sender recipient)
  lock_balances_tx (lower_id sender recipient ∷ higher_id sender recipient ∷ [])
  debit_balance_tx sender asset raw
  credit_balance_tx recipient asset raw

unfoldable pub transfer_balance : ℕ → ℕ → Str → Str → LedgerDb → Result (Unit {0}) × LedgerDb
unfolding transfer_balance_tx
transfer_balance sender recipient asset raw =
    transact (transfer_balance_tx sender recipient asset raw)

swap_balance_tx : ℕ → Str → Str → Str → Str → Tx LedgerDb (Unit {0})
swap_balance_tx user source source_raw destination destination_raw = do
  debit_balance_tx user source source_raw
  credit_balance_tx user destination destination_raw

unfoldable pub swap_balance : ℕ → Str → Str → Str → Str → LedgerDb → Result (Unit {0}) × LedgerDb
unfolding swap_balance_tx
swap_balance user source source_raw destination destination_raw =
    transact (swap_balance_tx user source source_raw destination destination_raw)
