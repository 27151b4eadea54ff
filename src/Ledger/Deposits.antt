-- ===== src/Ledger/Deposits.antt =====
-- InsertDeposit (internal/repo/ledger.go).
pub mod Laws
use dex_backend.Base.{
  ℕ, suc, Bool, true, false, ◌||◌, Option, none, some, List, [], ◌∷◌, ◌==◌, if◌then◌else◌,
}
use dex_backend.Base.Key.{nat_key}
use dex_backend.Result.{Result, ok, err, Err}
use dex_backend.Text.Bytes.{Str, to_lower}
use dex_backend.Asset.{Asset, name, normalize_asset}
use dex_backend.Table.{Table, select, insert}
use dex_backend.Schema.{LedgerKind, LedgerStatus, LedgerEntry, LedgerDb}
use dex_backend.Tx.{Tx, ◌>>=◌, ◌>>◌, pure, query, given, transact}
use dex_backend.Ledger.{validate_positive_amount, is_some, credit_balance_tx}

abbrev pub hash_is : ℕ → Option ℕ → Bool
hash_is hash none = false
hash_is hash (some h) = h == hash

-- The unique index on tx_hash has the hash.
unfoldable pub hash_taken : ℕ → Table ℕ LedgerEntry → Bool
hash_taken hash [] = false
hash_taken hash ((_, e) ∷ rows) = hash_is hash e.tx_hash || hash_taken hash rows

-- INSERT INTO ledger_entries, with the foreign key to users.
unfoldable pub insert_entry : LedgerEntry → Tx LedgerDb ℕ
insert_entry e db =
    if is_some (select e.user db.users)
    then ok (
      db.next_id,
      record db {
        ledger_entries = insert db.next_id e db.ledger_entries;
        next_id = suc db.next_id;
      },
    )
    else err Err.violates

-- … ON CONFLICT (tx_hash) DO NOTHING, with the number of rows inserted.
insert_if_free : Bool → LedgerEntry → Tx LedgerDb ℕ
insert_if_free true e = pure 0
insert_if_free false e = do id ← insert_entry e; pure 1

insert_or_nothing : ℕ → LedgerEntry → Tx LedgerDb ℕ
unfolding insert_if_free
insert_or_nothing hash e = do
  taken ← query (λ db. hash_taken hash db.ledger_entries)
  insert_if_free taken e

credit_if_new : ℕ → ℕ → Str → Str → Tx LedgerDb (Unit {0})
credit_if_new rows user token raw = if rows == 0 then pure tt else credit_balance_tx user token raw

unfoldable pub insert_deposit :
    ℕ → Str → Str → Str → Str → ℕ → LedgerDb → Result (Unit {0}) × LedgerDb
unfolding insert_or_nothing credit_if_new
insert_deposit user wallet token credit_token raw hash = transact do
  t ← given (normalize_asset token)
  c ← given (normalize_asset credit_token)
  x ← given (validate_positive_amount raw)
  rows ← insert_or_nothing hash (record {
    user = user;
    wallet_address = to_lower wallet;
    kind = LedgerKind.deposit;
    token = t;
    amount = x;
    tx_hash = some hash;
    status = LedgerStatus.confirmed;
  })
  credit_if_new rows user (name c) raw
