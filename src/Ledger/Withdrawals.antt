-- ===== src/Ledger/Withdrawals.antt =====
-- InsertWithdrawalRequest, MarkWithdrawalProcessing, MarkWithdrawalConfirmed, MarkWithdrawalFailed
-- and RejectWithdrawalRequest (internal/repo/ledger.go).
pub mod Request
pub mod Moves
pub mod Lifecycle
pub mod Confirm
pub mod Ids
use dex_backend.Base.{
  ℕ, ◌+◌, Bool, true, false, not, ◌&&◌, ◌||◌, Option, none, some, List, [], ◌∷◌, ltb, ◌==◌,
  if◌then◌else◌,
}
use dex_backend.Base.Key.{nat_key}
use dex_backend.Result.{Result, ok, err, Err}
use dex_backend.Text.Bytes.{Str, to_lower}
use dex_backend.Text.Decimal.{string}
use dex_backend.Asset.{name, normalize_asset}
use dex_backend.Table.{Table, select, update}
use dex_backend.Schema.{
  LedgerKind, LedgerStatus, pending, processing, confirmed, failed, rejected, LedgerEntry, LedgerDb,
}
use dex_backend.Tx.{Tx, ◌>>=◌, ◌>>◌, pure, query, given, found, check, transact}
use dex_backend.Ledger.{
  validate_positive_amount, is_request, lock_balance_tx, debit_balance_tx, pending_withdrawal_hold,
}
use dex_backend.Ledger.Deposits.{hash_is, insert_entry}

-- `available < amount`, with `available = balance - locked - hold` in signed numbers.
unfoldable pub insert_withdrawal_request : ℕ → Str → Str → Str → LedgerDb → Result ℕ × LedgerDb
insert_withdrawal_request user wallet token raw = transact do
  t ← given (normalize_asset token)
  x ← given (validate_positive_amount raw)
  lock_balance_tx user
  hold ← query (pending_withdrawal_hold user t)
  row ← query (λ db. select user db.user_balances)
  r ← found row Err.no_rows
  check (not (ltb (r.balance t) (r.locked t + hold + x))) Err.insufficient_available
  insert_entry (record {
    user = user;
    wallet_address = to_lower wallet;
    kind = LedgerKind.withdrawal_request;
    token = t;
    amount = x;
    tx_hash = none;
    status = pending;
  })

abbrev pub is_pending : LedgerStatus → Bool
is_pending pending = true
is_pending _ = false

abbrev pub is_processing : LedgerStatus → Bool
is_processing processing = true
is_processing _ = false

-- WHERE kind = 'withdrawal_request' AND …
unfoldable pub requests : (LedgerStatus → Bool) → Option LedgerEntry → Option LedgerEntry
requests test none = none
requests test (some e) = if is_request e.kind && test e.status then some e else none

abbrev pub set_status : LedgerStatus → LedgerEntry → LedgerEntry
set_status s e = record e { status = s }

-- UPDATE … SET status … WHERE id = $1 AND kind = … AND status = …, with the row it returns.
unfoldable pub move_request :
    ℕ → (LedgerStatus → Bool) → LedgerStatus → Tx LedgerDb (Option LedgerEntry)
unfolding requests
move_request id test to db = elim (requests test (select id db.ledger_entries)) [
  | none ↦ ok (none, db)
  | some e ↦ ok (
    some (set_status to e),
    record db { ledger_entries = update id (set_status to) db.ledger_entries },
  )
]

unfoldable pub mark_withdrawal_processing : ℕ → LedgerDb → Result LedgerEntry × LedgerDb
unfolding move_request
mark_withdrawal_processing id = transact do
  row ← move_request id is_pending processing
  e ← found row Err.not_pending
  lock_balance_tx e.user
  pure e

-- Another row has the hash, so that the unique index refuses it here.
hash_elsewhere : ℕ → ℕ → Table ℕ LedgerEntry → Bool
hash_elsewhere id hash [] = false
hash_elsewhere id hash ((j, e) ∷ rows) =
    (not (j == id) && hash_is hash e.tx_hash) || hash_elsewhere id hash rows

abbrev pub confirm_with : ℕ → LedgerEntry → LedgerEntry
confirm_with hash e = record e { status = confirmed; tx_hash = some hash }

-- UPDATE … SET status = 'confirmed', tx_hash = $3 WHERE id = $1 RETURNING …
confirm_entry : ℕ → ℕ → LedgerEntry → Tx LedgerDb LedgerEntry
unfolding hash_elsewhere
confirm_entry id hash e = do
  taken ← query (λ db. hash_elsewhere id hash db.ledger_entries)
  check (not taken) Err.violates
  λ db. ok (
    confirm_with hash e,
    record db { ledger_entries = update id (confirm_with hash) db.ledger_entries },
  )

abbrev pub any_status : LedgerStatus → Bool
any_status s = true

unfoldable pub mark_withdrawal_confirmed : ℕ → ℕ → LedgerDb → Result LedgerEntry × LedgerDb
unfolding requests confirm_entry
mark_withdrawal_confirmed id hash = transact do
  row ← query (λ db. requests any_status (select id db.ledger_entries))
  e ← found row Err.no_rows
  check (is_processing e.status) Err.not_processing
  debit_balance_tx e.user (name e.token) (string e.amount)
  confirm_entry id hash e

-- A request that is not processing is left alone, with no error.
unfoldable pub mark_withdrawal_failed : ℕ → LedgerDb → Result (Unit {0}) × LedgerDb
unfolding move_request
mark_withdrawal_failed id = transact do row ← move_request id is_processing failed; pure tt

unfoldable pub reject_withdrawal_request : ℕ → LedgerDb → Result (Unit {0}) × LedgerDb
unfolding move_request
reject_withdrawal_request id =
    transact do row ← move_request id is_pending rejected; e ← found row Err.not_pending; pure tt

latest_request : ℕ → Table ℕ LedgerEntry → Option (ℕ × LedgerEntry)
latest_request user [] = none
latest_request user ((id, e) ∷ rows) =
    if e.user == user && is_request e.kind && is_pending e.status
    then some (id, e)
    else latest_request user rows

unfoldable pub pending_withdrawal_request : ℕ → LedgerDb → Option (ℕ × LedgerEntry)
unfolding latest_request
pending_withdrawal_request user db = latest_request user db.ledger_entries
