-- ===== src/Ledger/Holds/Available.antt =====
-- `LockBalance` against `AvailableBalanceFor`: the engine may lock just what the read reports.
use dex_backend.Base.{
  ℕ, zero, suc, ◌-◌, ◌<◌, ◌≡◌, false, Option, none, some, leb, arith, inl, inr, if◌then◌else◌,
}
use dex_backend.Base.Key.{nat_key}
use dex_backend.Result.{ok, err, Err, Result-cases}
use dex_backend.Text.Bytes.{Str}
use dex_backend.Text.Decimal.{ℤ, pos, negsuc, set_string}
use dex_backend.Asset.{Asset, normalize_asset}
use dex_backend.Table.{select}
use dex_backend.Schema.{Balances, LedgerDb}
use dex_backend.Tx.{◌>>=◌, transact}
use dex_backend.Tx.Laws.{transact-err}
use dex_backend.Ledger.{
  positive, validate_positive_amount, lock_balance_tx, update_balances, pending_withdrawal_hold,
}
use dex_backend.Ledger.Cells.{
  balance_of, locked_of, IsKnown, lock_balance_tx-Same, lock_balance_tx_row,
}
use dex_backend.Ledger.Cells.Writes.{lock_balance_tx_total}
use dex_backend.Ledger.Holds.{lock_balance, lock_balance_body}
use dex_backend.Ledger.Holds.Laws.{hold-Keeps}
use dex_backend.Ledger.Reads.{available_balance_for}

positive_pos : (o : Option ℤ) {x : ℕ} → positive o ≡ ok x → 0 < x
unfolding positive
positive_pos none h = cc
positive_pos (some (pos zero)) h = cc
positive_pos (some (pos (suc n))) h = ground arith
positive_pos (some (negsuc n)) h = cc

pub validate_positive_amount_pos : (raw : Str) {x : ℕ} → validate_positive_amount raw ≡ ok x → 0 < x
unfolding validate_positive_amount
validate_positive_amount_pos raw h = positive_pos (set_string raw) h

-- What `AvailableBalanceFor` reports.
abbrev pub available : LedgerDb → ℕ → Asset → ℕ
available db u a = balance_of db u a - locked_of db u a - pending_withdrawal_hold u a db

-- The row that the statements read, once it is locked.
record LockedRow (u : ℕ) (a : Asset) (db d : LedgerDb) (r : Balances) : Type 0 where
  row : select u d.user_balances ≡ some r
  balance : r.balance a ≡ balance_of db u a
  locked : r.locked a ≡ locked_of db u a
  hold : pending_withdrawal_hold u a d ≡ pending_withdrawal_hold u a db

locked_row :
    (u : ℕ) (a : Asset) (db : LedgerDb) {d : LedgerDb}
    → lock_balance_tx u db ≡ ok (tt, d)
    → (r : Balances) × LockedRow u a db d r
locked_row u a db {d} h =
    let (r, row) = lock_balance_tx_row u db h in
    let same = lock_balance_tx-Same u db h in
    (
      r,
      record {
        row = row;
        balance = unfold balance_of in ground (arith, same.balances u a);
        locked = unfold locked_of in ground (arith, same.lockeds u a);
        hold = hold-Keeps u a same.keeps;
      },
    )

available_balance_for_lem :
    (u : ℕ) (asset : Str) (a : Asset) (db : LedgerDb)
    → IsKnown db u
    → normalize_asset asset ≡ ok a
    → (available_balance_for u asset db).0 ≡ ok (available db u a)
unfolding available_balance_for transact ◌>>=◌
available_balance_for_lem u asset a db known read =
    let (d, locks) = lock_balance_tx_total u db known in
    let (r, l) = locked_row u a db locks in ground arith

lock_balance_lem :
    (u : ℕ) (asset raw : Str) (a : Asset) (x : ℕ) (db : LedgerDb)
    → IsKnown db u
    → normalize_asset asset ≡ ok a
    → validate_positive_amount raw ≡ ok x
    → (lock_balance u asset raw db).0
      ≡ (if leb x (available db u a) then ok tt else err Err.insufficient_to_lock)
unfolding lock_balance lock_balance_body transact ◌>>=◌ update_balances
lock_balance_lem u asset raw a x db known read amount =
    let (d, locks) = lock_balance_tx_total u db known in
    let (r, l) = locked_row u a db locks in
    ground (arith, validate_positive_amount_pos raw {x = x} amount)

-- An unsupported asset is refused before any table is read.
available_balance_for_unsupported :
    (u : ℕ) (asset : Str) (db : LedgerDb) {e : Err}
    → normalize_asset asset ≡ err e
    → (available_balance_for u asset db).0 ≡ err e
unfolding available_balance_for transact ◌>>=◌
available_balance_for_unsupported u asset db h = ground arith

lock_balance-err :
    (u : ℕ) (asset raw : Str) (db : LedgerDb) {e : Err}
    → (lock_balance u asset raw db).0 ≡ err e
    → (lock_balance u asset raw db).1 ≡ db
unfolding lock_balance
lock_balance-err u asset raw db h = transact-err _ db h

-- A registered user's lock of a positive amount is granted exactly if it is at most what
-- `AvailableBalanceFor` reports of that asset at the time; otherwise it is refused as
-- insufficient, and no table has changed.
pub lock_balance-available :
    (u : ℕ) (asset raw : Str) (x n : ℕ) (db : LedgerDb)
    → IsKnown db u
    → (available_balance_for u asset db).0 ≡ ok n
    → validate_positive_amount raw ≡ ok x
    → ((lock_balance u asset raw db).0 ≡ (if leb x n then ok tt else err Err.insufficient_to_lock))
      × (leb x n ≡ false → (lock_balance u asset raw db).1 ≡ db)
lock_balance-available u asset raw x n db known reported amount =
    elim (Result-cases (normalize_asset asset)) [
      | inl (a, read) ↦
          let as_reported : available db u a ≡ n =
            ground (arith, available_balance_for_lem u asset a db known read) in
          let outcome = lock_balance_lem u asset raw a x db known read amount in
          (
            ground arith,
            λ refused.
                lock_balance-err u asset raw db {e = Err.insufficient_to_lock} (ground arith),
          )
      | inr (e, unread) ↦
          absurd (ground (arith, available_balance_for_unsupported u asset db unread))
    ]
