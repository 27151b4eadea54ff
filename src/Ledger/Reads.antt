-- ===== src/Ledger/Reads.antt =====
-- BalanceFor, AvailableBalanceFor, BalancesFor, LockedBalancesFor, PendingWithdrawalHoldsFor and
-- AllNonzeroBalances (internal/repo/ledger.go). Amounts are numbers here; the sources print them.
pub mod Nonzero
use dex_backend.Base.{ℕ, ◌-◌, Option, none, some, List, [], ◌∷◌, ◌++◌, ltb, if◌then◌else◌}
use dex_backend.Base.Key.{nat_key}
use dex_backend.Result.{Result, ok, err, Err}
use dex_backend.Text.Bytes.{Str}
use dex_backend.Asset.{Asset, btc, usdc, usdt, bi, biusd, eth, sol, bnb, normalize_asset}
use dex_backend.Table.{Table, select}
use dex_backend.Schema.{Balances, LedgerDb, no_balances}
use dex_backend.Tx.{◌>>=◌, ◌>>◌, pure, query, given, found, transact}
use dex_backend.Ledger.{lock_balance_tx, pending_withdrawal_hold}

-- No row is a balance of "0".
unfoldable pub row_or_zeros : Option Balances → Balances
row_or_zeros none = no_balances
row_or_zeros (some r) = r

unfoldable pub balance_for : ℕ → Str → LedgerDb → Result ℕ
unfolding row_or_zeros
balance_for user token db = elim (normalize_asset token) [
  | ok a ↦ ok ((row_or_zeros (select user db.user_balances)).balance a)
  | err e ↦ err e
]

-- The columns in the order of the `SELECT`.
unfoldable pub all_columns : (Asset → ℕ) → List (Asset × ℕ)
all_columns f =
    (btc, f btc)
    ∷ (eth, f eth)
    ∷ (sol, f sol)
    ∷ (bnb, f bnb)
    ∷ (biusd, f biusd)
    ∷ (usdc, f usdc)
    ∷ (usdt, f usdt)
    ∷ (bi, f bi)
    ∷ []

unfoldable pub balances_for : ℕ → LedgerDb → List (Asset × ℕ)
unfolding row_or_zeros all_columns
balances_for user db = all_columns (row_or_zeros (select user db.user_balances)).balance

unfoldable pub locked_balances_for : ℕ → LedgerDb → List (Asset × ℕ)
unfolding row_or_zeros all_columns
locked_balances_for user db = all_columns (row_or_zeros (select user db.user_balances)).locked

-- GROUP BY token over the pending requests, and "0" for a token that has none.
unfoldable pub pending_withdrawal_holds_for : ℕ → LedgerDb → List (Asset × ℕ)
unfolding all_columns
pending_withdrawal_holds_for user db = all_columns (λ a. pending_withdrawal_hold user a db)

-- The truncated difference is `available`, set to 0 where it is negative.
unfoldable pub available_balance_for : ℕ → Str → LedgerDb → Result ℕ × LedgerDb
available_balance_for user token = transact do
  a ← given (normalize_asset token)
  lock_balance_tx user
  hold ← query (pending_withdrawal_hold user a)
  row ← query (λ db. select user db.user_balances)
  r ← found row Err.no_rows
  pure (r.balance a - r.locked a - hold)

-- One arm of the UNION ALL of `AllNonzeroBalances`.
unfoldable pub nonzero_of : Asset → Table ℕ Balances → List (ℕ × Asset × ℕ)
nonzero_of a [] = []
nonzero_of a ((user, r) ∷ rows) =
    if ltb (r.locked a) (r.balance a)
    then (user, a, r.balance a - r.locked a) ∷ nonzero_of a rows
    else nonzero_of a rows

unfoldable pub all_nonzero_balances : LedgerDb → List (ℕ × Asset × ℕ)
unfolding nonzero_of
all_nonzero_balances db =
    nonzero_of usdc db.user_balances
    ++ (nonzero_of btc db.user_balances
        ++ (nonzero_of eth db.user_balances
            ++ (nonzero_of sol db.user_balances
                ++ (nonzero_of bnb db.user_balances
                    ++ (nonzero_of usdt db.user_balances
                        ++ (nonzero_of biusd db.user_balances
                            ++ nonzero_of bi db.user_balances))))))
