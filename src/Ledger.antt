-- ===== src/Ledger.antt =====
-- The checks and statements that the methods of LedgerRepo share (internal/repo/ledger.go).
pub mod Amounts
pub mod Cells
pub mod Transfers
pub mod Holds
pub mod Reads
pub mod Rows
pub mod Settlement
pub mod Deposits
pub mod Withdrawals
mod Tests
use mathlib.Core.Option
use dex_backend.Base.{
  ℕ, zero, suc, ◌+◌, ◌-◌, Bool, true, false, not, ◌&&◌, ◌||◌, Option, none, some, List, [], ◌∷◌,
  leb, ◌==◌, length, if◌then◌else◌,
}
use dex_backend.Base.Key.{nat_key}
use dex_backend.Result.{Result, ok, err, Err}
use dex_backend.Text.Bytes.{Str}
use dex_backend.Text.Decimal.{ℤ, pos, negsuc, set_string}
use dex_backend.Asset.{Asset, asset_eq, normalize_asset}
use dex_backend.Table.{select, insert, update, sum}
use dex_backend.Schema.{
  Balances, LedgerKind, LedgerStatus, LedgerEntry, LedgerDb, set_balance, set_locked, no_balances,
}
use dex_backend.Tx.{Tx, ◌>>=◌, ◌>>◌, pure, query, given, found, check, fail}

-- The number that `$2::numeric` reads, once the text is found positive.
positive : Option ℤ → Result ℕ
positive (some (pos (suc n))) = ok (suc n)
positive _ = err Err.not_positive

unfoldable pub validate_positive_amount : Str → Result ℕ
unfolding positive
validate_positive_amount raw = positive (set_string raw)

non_negative : Option ℤ → Result ℕ
non_negative (some (pos n)) = ok n
non_negative _ = err Err.not_non_negative

unfoldable pub validate_non_negative_amount : Str → Result ℕ
unfolding non_negative
validate_non_negative_amount raw = non_negative (set_string raw)

abbrev pub is_some {ℓ} : {A : Type ℓ} → Option A → Bool
is_some none = false
is_some (some _) = true

-- `lockUser`
unfoldable pub lock_user : ℕ → Tx LedgerDb (Unit {0})
lock_user user db = check (is_some (select user db.users)) Err.user_not_found db

-- INSERT INTO user_balances … ON CONFLICT DO NOTHING, with the foreign key to users.
add_row : ℕ → Option Balances → Tx LedgerDb (Unit {0})
add_row user (some r) db = ok (tt, db)
add_row user none db =
    if is_some (select user db.users)
    then ok (tt, record db { user_balances = insert user no_balances db.user_balances })
    else err Err.violates

-- `lockBalance`
unfoldable pub lock_balance_tx : ℕ → Tx LedgerDb (Unit {0})
unfolding add_row
lock_balance_tx user db = add_row user (select user db.user_balances) db

add_rows : List ℕ → Tx LedgerDb (Unit {0})
unfolding lock_balance_tx
add_rows [] = pure tt
add_rows (u ∷ us) = do lock_balance_tx u; add_rows us

abbrev contains : ℕ → List ℕ → Bool
contains u [] = false
contains u (v ∷ vs) = u == v || contains u vs

-- The rows of `WHERE user_id = ANY($1)`: one for each user listed that has one.
abbrev rows_of : LedgerDb → List ℕ → ℕ
rows_of db [] = 0
rows_of db (u ∷ us) =
    (if contains u us || not (is_some (select u db.user_balances)) then 0 else 1) + rows_of db us

-- `lockBalances`
unfoldable pub lock_balances_tx : List ℕ → Tx LedgerDb (Unit {0})
unfolding add_rows
lock_balances_tx users = do
  add_rows users
  n ← query (λ db. rows_of db users)
  check (n == length users) Err.lock_records

-- UPDATE user_balances SET … WHERE user_id = $1 AND …, with the number of rows it changed.
unfoldable pub update_balances : ℕ → (Balances → Bool) → (Balances → Balances) → Tx LedgerDb ℕ
update_balances user where_ set db = elim (select user db.user_balances) [
  | none ↦ ok (0, db)
  | some r ↦
      if where_ r
      then ok (1, record db { user_balances = update user set db.user_balances })
      else ok (0, db)
]

abbrev pub always : Balances → Bool
always r = true

-- `creditBalanceTx`
unfoldable pub credit_balance_tx : ℕ → Str → Str → Tx LedgerDb (Unit {0})
credit_balance_tx user asset raw = do
  a ← given (normalize_asset asset)
  x ← given (validate_positive_amount raw)
  lock_balance_tx user
  rows ← update_balances user always (λ r. set_balance a (r.balance a + x) r)
  pure tt

-- `debitBalanceTx`
unfoldable pub debit_balance_tx : ℕ → Str → Str → Tx LedgerDb (Unit {0})
debit_balance_tx user asset raw = do
  a ← given (normalize_asset asset)
  x ← given (validate_positive_amount raw)
  lock_balance_tx user
  rows ← update_balances user (λ r. leb x (r.balance a)) (λ r. set_balance a (r.balance a - x) r)
  check (not (rows == 0)) Err.insufficient

abbrev is_request : LedgerKind → Bool
is_request LedgerKind.withdrawal_request = true
is_request _ = false

abbrev is_open : LedgerStatus → Bool
is_open LedgerStatus.pending = true
is_open LedgerStatus.processing = true
is_open _ = false

-- What an entry adds to the sum of `pendingWithdrawalHoldTx`.
unfoldable pub hold_of : ℕ → Asset → LedgerEntry → ℕ
hold_of user token e =
    if e.user == user && asset_eq e.token token && is_request e.kind && is_open e.status
    then e.amount
    else 0

-- `pendingWithdrawalHoldTx`
unfoldable pub pending_withdrawal_hold : ℕ → Asset → LedgerDb → ℕ
pending_withdrawal_hold user token db = sum (λ _ e. hold_of user token e) db.ledger_entries
