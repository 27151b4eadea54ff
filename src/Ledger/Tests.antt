-- ===== src/Ledger/Tests.antt =====
-- The methods of LedgerRepo on two users' balances.
use dex_backend.Base.{
  ℕ, ◌≡◌, refl, leb, true, false, none, some, List, [], ◌∷◌, ◌≢◌, ◌+◌, ◌-◌, ◌≤◌, ◌⊎◌, if◌then◌else◌,
}
use dex_backend.Base.Key.{nat_key}
use dex_backend.Result.{Result, ok, err, Err}
use dex_backend.Text.Bytes.{Str, bytes, trim_space}
use dex_backend.Asset.{Asset, asset_eq, normalize_asset, asset_columns, btc, usdt}
use dex_backend.Schema.{
  User, Balances, LedgerKind, processing, LedgerEntry, LedgerDb, set_balance, set_locked,
  no_balances,
}
use dex_backend.Tx.{transact, ◌>>=◌}
use dex_backend.Table.{select, insert, update, sum}
use dex_backend.Text.Decimal.{set_string, string}
use dex_backend.Ledger.{
  lock_user, is_request, hold_of, pending_withdrawal_hold, validate_positive_amount,
  validate_non_negative_amount, lock_balance_tx, lock_balances_tx, credit_balance_tx,
  debit_balance_tx, update_balances,
}
use dex_backend.Ledger.Cells.{balance_of, locked_of, Wrote, IsKnown}
use dex_backend.Ledger.Transfers.{transfer_balance, swap_balance}
use dex_backend.Ledger.Transfers.Steps.{Reads}
use dex_backend.Ledger.Transfers.Laws.{Transferred, transfer_balance_moves}
use dex_backend.Ledger.Holds.{Plan, lock_balance, replace_locks_for}
use dex_backend.Ledger.Holds.Laws.{IsSolvent, lock_balance_reserves}
use dex_backend.Ledger.Holds.Available.{lock_balance-available}
use dex_backend.Ledger.Holds.Replace.{Plans, Fits, Replaced, replace_locks_for_replaces}
use dex_backend.Ledger.Reads.{available_balance_for}
use dex_backend.Ledger.Settlement.{settle_spot_trade, settle_locked_debit}
use dex_backend.Ledger.Settlement.Laws.{
  Settled, settle_spot_trade_settles, settle_locked_debit_settles,
}
use dex_backend.Ledger.Deposits.{insert_deposit, insert_entry, hash_taken}
use dex_backend.Ledger.Deposits.Laws.{Deposited, insert_deposit_credits, insert_deposit_once}
use dex_backend.Ledger.Withdrawals.{
  insert_withdrawal_request, pending_withdrawal_request, mark_withdrawal_confirmed, is_processing,
  confirm_with,
}
use dex_backend.Ledger.Withdrawals.Request.{
  Requested, request_entry, insert_withdrawal_request_holds, insert_withdrawal_request-pending,
}
use dex_backend.Ledger.Withdrawals.Confirm.{Paid, mark_withdrawal_confirmed_pays}
use dex_backend.Ledger.Withdrawals.Lifecycle.{Call, Descends, run, run-Descends}

abbrev user : User
user = record { wallet_address = []; p2p_username = none }

abbrev ann : Balances
ann = set_locked btc 40 (set_balance btc 100 no_balances)

abbrev bob : Balances
bob = set_locked usdt 500 (set_balance usdt 900 no_balances)

abbrev request : LedgerEntry
request = record {
  user = 1;
  wallet_address = bytes "0xab";
  kind = LedgerKind.withdrawal_request;
  token = btc;
  amount = 25;
  tx_hash = none;
  status = processing;
}

abbrev db : LedgerDb
db = record {
  users = (1, user) ∷ (2, user) ∷ [];
  user_balances = (1, ann) ∷ (2, bob) ∷ [];
  ledger_entries = (1, request) ∷ [];
  next_id = 2;
}

abbrev btc_text : Str
btc_text = bytes "btc"

abbrev usdt_text : Str
usdt_text = bytes " USDT "

abbrev wallet : Str
wallet = bytes "0xCD"

-- A call that commits.
abbrev Commits : (LedgerDb → Result (Unit {0}) × LedgerDb) → Type 0
Commits call = call db ≡ (ok tt, (call db).1)

transfer_run : Commits (transfer_balance 1 2 btc_text (bytes "30"))
unfolding transfer_balance credit_balance_tx debit_balance_tx lock_user transact ◌>>=◌ select update
    insert update_balances lock_balance_tx lock_balances_tx normalize_asset asset_columns asset_eq
    trim_space validate_positive_amount set_string
transfer_run = refl

transfer_balance_moves_example :
    (◌≢◌ {A = ℕ} 1 2)
    × (a : Asset) × (x : ℕ) × Reads btc_text (bytes "30") a x
    × Transferred 1 2 a x db (transfer_balance 1 2 btc_text (bytes "30") db).1
transfer_balance_moves_example = transfer_balance_moves 1 2 btc_text (bytes "30") db transfer_run

swap_run : Commits (swap_balance 2 usdt_text (bytes "500") btc_text (bytes "3"))
unfolding swap_balance credit_balance_tx debit_balance_tx transact ◌>>=◌ select update insert
    update_balances lock_balance_tx lock_balances_tx normalize_asset asset_columns asset_eq
    trim_space validate_positive_amount set_string
swap_run = refl

lock_run : Commits (lock_balance 1 btc_text (bytes "30"))
unfolding lock_balance pending_withdrawal_hold hold_of sum transact ◌>>=◌ select update insert
    update_balances lock_balance_tx lock_balances_tx normalize_asset asset_columns asset_eq
    trim_space validate_positive_amount set_string
lock_run = refl

lock_balance_reserves_example :
    let db' = (lock_balance 1 btc_text (bytes "30") db).1 in
    (a : Asset) × (x : ℕ) × Reads btc_text (bytes "30") a x
    × (x + pending_withdrawal_hold 1 a db + locked_of db 1 a ≤ balance_of db 1 a)
    × Wrote 1 a (balance_of db 1 a) (locked_of db 1 a + x) db db'
    × IsSolvent db' 1 a
lock_balance_reserves_example = lock_balance_reserves 1 btc_text (bytes "30") db lock_run

available_run : (available_balance_for 1 btc_text db).0 ≡ ok 35
unfolding available_balance_for pending_withdrawal_hold hold_of sum transact ◌>>=◌ select update
    insert update_balances lock_balance_tx lock_balances_tx normalize_asset asset_columns asset_eq
    trim_space validate_positive_amount set_string
available_run = refl

amount_run : validate_positive_amount (bytes "36") ≡ ok 36
unfolding validate_positive_amount set_string
amount_run = refl

ann-IsKnown : IsKnown db 1
unfolding select
ann-IsKnown = refl

lock_balance-available_example :
    ((lock_balance 1 btc_text (bytes "36") db).0
      ≡ (if leb 36 35 then ok tt else err Err.insufficient_to_lock))
    × (leb 36 35 ≡ false → (lock_balance 1 btc_text (bytes "36") db).1 ≡ db)
lock_balance-available_example =
    lock_balance-available 1 btc_text (bytes "36") 36 35 db ann-IsKnown available_run amount_run

abbrev targets : List (Str × Str)
targets = (btc_text, bytes "70") ∷ (usdt_text, bytes "0") ∷ []

replace_run : Commits (replace_locks_for 1 targets)
unfolding replace_locks_for validate_non_negative_amount pending_withdrawal_hold hold_of sum
    transact ◌>>=◌ select update insert update_balances lock_balance_tx lock_balances_tx
    normalize_asset asset_columns asset_eq trim_space validate_positive_amount set_string
replace_run = refl

replace_locks_for_replaces_example :
    (plans : List Plan) × Plans targets plans
    × Fits db 1 plans
    × Replaced 1 plans db (replace_locks_for 1 targets db).1
replace_locks_for_replaces_example = replace_locks_for_replaces 1 targets db replace_run

trade_run :
    Commits (settle_spot_trade 2 1 btc_text usdt_text (bytes "20") (bytes "400") (bytes "390"))
unfolding settle_spot_trade lock_user transact ◌>>=◌ select update insert update_balances
    lock_balance_tx lock_balances_tx normalize_asset asset_columns asset_eq trim_space
    validate_positive_amount set_string
trade_run = refl

settle_spot_trade_settles_example :
    (◌≢◌ {A = ℕ} 2 1)
    × (b : Asset) × (q : Asset) × (qty : ℕ) × (buyer_quote : ℕ) × (seller_quote : ℕ) × Reads
        btc_text
        (bytes "20")
        b
        qty
    × Reads usdt_text (bytes "400") q buyer_quote
    × Reads usdt_text (bytes "390") q seller_quote
    × Settled 2 1 b q qty buyer_quote seller_quote db
        (settle_spot_trade 2 1 btc_text usdt_text (bytes "20") (bytes "400") (bytes "390") db).1
settle_spot_trade_settles_example =
    settle_spot_trade_settles 2 1 btc_text usdt_text (bytes "20") (bytes "400") (bytes "390") db
      trade_run

locked_debit_run : Commits (settle_locked_debit 1 btc_text (bytes "50"))
unfolding settle_locked_debit transact ◌>>=◌ select update insert update_balances lock_balance_tx
    lock_balances_tx normalize_asset asset_columns asset_eq trim_space validate_positive_amount
    set_string
locked_debit_run = refl

settle_locked_debit_settles_example :
    (a : Asset) × (x : ℕ) × Reads btc_text (bytes "50") a x
    × (x ≤ balance_of db 1 a)
    × Wrote 1 a
        (balance_of db 1 a - x)
        (locked_of db 1 a - x)
        db
        (settle_locked_debit 1 btc_text (bytes "50") db).1
settle_locked_debit_settles_example =
    settle_locked_debit_settles 1 btc_text (bytes "50") db locked_debit_run

deposit_run : Commits (insert_deposit 2 wallet usdt_text (bytes "BIUSD") (bytes "10") 7)
unfolding insert_deposit hash_taken insert_entry credit_balance_tx transact ◌>>=◌ select update
    insert update_balances lock_balance_tx lock_balances_tx normalize_asset asset_columns asset_eq
    trim_space validate_positive_amount set_string
deposit_run = refl

insert_deposit_credits_example :
    let db' = (insert_deposit 2 wallet usdt_text (bytes "BIUSD") (bytes "10") 7 db).1 in
    (t : Asset) × (c : Asset) × (x : ℕ) × (normalize_asset usdt_text ≡ ok t)
    × Reads (bytes "BIUSD") (bytes "10") c x
    × (((hash_taken 7 db.ledger_entries ≡ true) × (db' ≡ db))
        ⊎ ((hash_taken 7 db.ledger_entries ≡ false) × Deposited 2 wallet t c x 7 db db'))
insert_deposit_credits_example =
    insert_deposit_credits 2 wallet usdt_text (bytes "BIUSD") (bytes "10") 7 db deposit_run

insert_deposit_once_example :
    let db' = (insert_deposit 2 wallet usdt_text (bytes "BIUSD") (bytes "10") 7 db).1 in
    (insert_deposit 1 wallet btc_text btc_text (bytes "99") 7 db').1 ≡ db'
insert_deposit_once_example =
    insert_deposit_once 2 1 wallet usdt_text (bytes "BIUSD") (bytes "10") wallet btc_text btc_text
      (bytes "99") 7 db deposit_run

request_run :
    insert_withdrawal_request 1 wallet btc_text (bytes "35") db
    ≡ (ok 2, (insert_withdrawal_request 1 wallet btc_text (bytes "35") db).1)
unfolding insert_withdrawal_request insert_entry pending_withdrawal_hold hold_of sum transact ◌>>=◌
    select update insert update_balances lock_balance_tx lock_balances_tx normalize_asset
    asset_columns asset_eq trim_space validate_positive_amount set_string
request_run = refl

insert_withdrawal_request_holds_example :
    let db' = (insert_withdrawal_request 1 wallet btc_text (bytes "35") db).1 in
    (t : Asset) × (x : ℕ) × Reads btc_text (bytes "35") t x
    × (2 ≡ db.next_id)
    × (locked_of db 1 t + pending_withdrawal_hold 1 t db + x ≤ balance_of db 1 t)
    × Requested 1 wallet t x db db'
    × IsSolvent db' 1 t
insert_withdrawal_request_holds_example =
    insert_withdrawal_request_holds 1 wallet btc_text (bytes "35") db request_run

insert_withdrawal_request-pending_example :
    let db' = (insert_withdrawal_request 1 wallet btc_text (bytes "35") db).1 in
    (t : Asset) × (x : ℕ) × Reads btc_text (bytes "35") t x
    × (pending_withdrawal_request 1 db' ≡ some (2, request_entry 1 wallet t x))
insert_withdrawal_request-pending_example =
    insert_withdrawal_request-pending 1 wallet btc_text (bytes "35") db request_run

confirm_run :
    mark_withdrawal_confirmed 1 9 db
    ≡ (ok (confirm_with 9 request), (mark_withdrawal_confirmed 1 9 db).1)
unfolding mark_withdrawal_confirmed debit_balance_tx string transact ◌>>=◌ select update insert
    update_balances lock_balance_tx lock_balances_tx normalize_asset asset_columns asset_eq
    trim_space validate_positive_amount set_string
confirm_run = refl

mark_withdrawal_confirmed_pays_example :
    let db' = (mark_withdrawal_confirmed 1 9 db).1 in
    (e : LedgerEntry) × (select 1 db.ledger_entries ≡ some e)
    × (is_request e.kind ≡ true)
    × (is_processing e.status ≡ true)
    × (confirm_with 9 request ≡ confirm_with 9 e)
    × Paid 1 9 e db db'
    × ((again : ℕ) → mark_withdrawal_confirmed 1 again db' ≡ (err Err.not_processing, db'))
mark_withdrawal_confirmed_pays_example = mark_withdrawal_confirmed_pays 1 9 db confirm_run

abbrev calls : List Call
calls = Call.process 1 ∷ Call.confirm 1 9 ∷ Call.fail 1 ∷ []

request_found : select 1 db.ledger_entries ≡ some request
unfolding select
request_found = refl

run-Descends_example :
    (e' : LedgerEntry) × (select 1 (run calls db).ledger_entries ≡ some e') × Descends request e'
run-Descends_example = run-Descends calls db 1 request request_found
