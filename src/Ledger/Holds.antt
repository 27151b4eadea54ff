-- ===== src/Ledger/Holds.antt =====
-- LockBalance, UnlockBalance, ReplaceLocksFor, ReleaseLocksFor, ResetBalanceFor and
-- SyncBalanceFor (internal/repo/ledger.go): what the matching engine reserves for open orders.
pub mod Laws
pub mod Replace
pub mod Available
use dex_backend.Base.{ℕ, ◌+◌, ◌-◌, not, List, [], ◌∷◌, leb, ◌==◌}
use dex_backend.Result.{Result, ok, err, Err}
use dex_backend.Text.Bytes.{Str}
use dex_backend.Asset.{Asset, normalize_asset}
use dex_backend.Schema.{LedgerDb, set_balance, set_locked}
use dex_backend.Tx.{Tx, ◌>>=◌, ◌>>◌, pure, query, given, check, transact}
use dex_backend.Ledger.{
  validate_positive_amount, validate_non_negative_amount, lock_balance_tx, update_balances, always,
  pending_withdrawal_hold,
}

-- `column - locked - hold >= amount` in signed numbers, without a subtraction.
lock_balance_body : ℕ → Asset → ℕ → Tx LedgerDb (Unit {0})
lock_balance_body user a x = do
  lock_balance_tx user
  hold ← query (pending_withdrawal_hold user a)
  rows ←
      update_balances user (λ r. leb (x + hold + r.locked a) (r.balance a))
        (λ r. set_locked a (r.locked a + x) r)
  check (not (rows == 0)) Err.insufficient_to_lock

unfoldable pub lock_balance : ℕ → Str → Str → LedgerDb → Result (Unit {0}) × LedgerDb
unfolding lock_balance_body
lock_balance user asset raw = transact do
  a ← given (normalize_asset asset)
  x ← given (validate_positive_amount raw)
  lock_balance_body user a x

-- `GREATEST(0, locked - amount)` is the truncated difference.
unfoldable pub unlock_balance : ℕ → Str → Str → LedgerDb → Result (Unit {0}) × LedgerDb
unlock_balance user asset raw = transact do
  a ← given (normalize_asset asset)
  x ← given (validate_positive_amount raw)
  lock_balance_tx user
  rows ← update_balances user always (λ r. set_locked a (r.locked a - x) r)
  pure tt

-- The `plans` of `ReplaceLocksFor`: an asset and the amount to lock of it. The targets come in
-- the order in which the range over the map meets them.
abbrev pub Plan : Type 0
Plan = Asset × ℕ

plan_all : List (Str × Str) → Tx LedgerDb (List Plan)
plan_all [] = pure []
plan_all ((asset, raw) ∷ targets) = do
  a ← given (normalize_asset asset)
  x ← given (validate_non_negative_amount raw)
  plans ← plan_all targets
  pure ((a, x) ∷ plans)

-- The first batch: each plan's pending withdrawals, read before anything is written.
read_pending : ℕ → List Plan → LedgerDb → List (Plan × ℕ)
read_pending user [] db = []
read_pending user (p ∷ plans) db =
    (p, pending_withdrawal_hold user p.0 db) ∷ read_pending user plans db

-- The second batch: `column - amount - pending >= 0` or the whole replacement fails.
update_all : ℕ → List (Plan × ℕ) → Tx LedgerDb (Unit {0})
update_all user [] = pure tt
update_all user (((a, x), pending) ∷ plans) = do
  rows ← update_balances user (λ r. leb (x + pending) (r.balance a)) (λ r. set_locked a x r)
  check (not (rows == 0)) Err.insufficient_to_lock
  update_all user plans

unfoldable pub replace_locks_for : ℕ → List (Str × Str) → LedgerDb → Result (Unit {0}) × LedgerDb
unfolding plan_all read_pending update_all
replace_locks_for user targets = transact do
  plans ← plan_all targets
  lock_balance_tx user
  pending ← query (read_pending user plans)
  update_all user pending

unfoldable pub release_locks_for : ℕ → Str → LedgerDb → Result (Unit {0}) × LedgerDb
release_locks_for user asset = transact do
  a ← given (normalize_asset asset)
  lock_balance_tx user
  rows ← update_balances user always (λ r. set_locked a 0 r)
  pure tt

unfoldable pub reset_balance_for : ℕ → Str → LedgerDb → Result (Unit {0}) × LedgerDb
reset_balance_for user asset = transact do
  a ← given (normalize_asset asset)
  lock_balance_tx user
  rows ← update_balances user always (λ r. set_locked a 0 (set_balance a 0 r))
  pure tt

unfoldable pub sync_balance_for : ℕ → Str → Str → LedgerDb → Result (Unit {0}) × LedgerDb
sync_balance_for user asset raw = transact do
  a ← given (normalize_asset asset)
  x ← given (validate_non_negative_amount raw)
  lock_balance_tx user
  rows ← update_balances user always (λ r. set_locked a 0 (set_balance a x r))
  pure tt
