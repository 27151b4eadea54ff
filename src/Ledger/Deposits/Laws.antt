-- ===== src/Ledger/Deposits/Laws.antt =====
-- A deposit is recorded and credited once for each transaction hash.
use dex_backend.Base.{
  ℕ, suc, ◌+◌, ◌≡◌, refl, true, false, ◌⊎◌, inl, inr, some, arith, ==_iff, Bool-cases,
  if◌then◌else◌,
}
use mathlib.Core.Path.{subst}
use dex_backend.Base.Key.{nat_key}
use dex_backend.Result.{ok, Result-cases}
use dex_backend.Text.Bytes.{Str, to_lower}
use dex_backend.Asset.{Asset, asset_eq, name, normalize_asset}
use dex_backend.Asset.Laws.{normalize_asset-name}
use dex_backend.Table.{Table, select, insert}
use dex_backend.Schema.{LedgerKind, LedgerStatus, LedgerEntry, LedgerDb}
use dex_backend.Tx.Laws.{bind-ok, given-bind, query-bind, transact-ok, transact-err}
use dex_backend.Ledger.{validate_positive_amount, is_some, credit_balance_tx}
use dex_backend.Ledger.Cells.{balance_of, locked_of, total, at}
use dex_backend.Ledger.Transfers.Steps.{Reads, credit_balance_tx-Credited}
use dex_backend.Ledger.Deposits.{
  hash_taken, insert_entry, insert_if_free, insert_or_nothing, credit_if_new, insert_deposit,
}

hash_taken-insert :
    (hash id : ℕ) (e : LedgerEntry) (rows : Table ℕ LedgerEntry)
    → e.tx_hash ≡ some hash
    → hash_taken hash (insert id e rows) ≡ true
unfolding hash_taken insert
hash_taken-insert hash id e rows h = ground (arith, ==_iff hash hash)

-- The entry that a deposit records.
abbrev pub deposit_entry : ℕ → Str → Asset → ℕ → ℕ → LedgerEntry
deposit_entry user wallet t x hash = record {
  user = user;
  wallet_address = to_lower wallet;
  kind = LedgerKind.deposit;
  token = t;
  amount = x;
  tx_hash = some hash;
  status = LedgerStatus.confirmed;
}

-- The deposit is recorded under the next id, and its amount credited in the credit asset.
pub record Deposited (u : ℕ) (wallet : Str) (t c : Asset) (x hash : ℕ) (db db' : LedgerDb)
    : Type 0 where
  pub entries :
      db'.ledger_entries ≡ insert db.next_id (deposit_entry u wallet t x hash) db.ledger_entries
  pub balances : (v : ℕ) (k : Asset) → balance_of db' v k ≡ balance_of db v k + at u c v k x
  pub lockeds : (v : ℕ) (k : Asset) → locked_of db' v k ≡ locked_of db v k
  pub totals : (k : Asset) → total k db' ≡ total k db + (if asset_eq c k then x else 0)

-- An inserted entry takes the next id, and its user is registered.
pub insert_entry-ok :
    (e : LedgerEntry) (db : LedgerDb) {id : ℕ} {d : LedgerDb}
    → insert_entry e db ≡ ok (id, d)
    → (id ≡ db.next_id)
      × (d ≡ record db {
        ledger_entries = insert db.next_id e db.ledger_entries;
        next_id = suc db.next_id;
      })
unfolding insert_entry
insert_entry-ok e db h = elim (Bool-cases (is_some (select e.user db.users))) [
  | inl known ↦ (ground arith, ground arith)
  | inr unknown ↦ ground arith
]

insert_fresh :
    (e : LedgerEntry) (db : LedgerDb) {n : ℕ} {d : LedgerDb}
    → insert_if_free false e db ≡ ok (n, d)
    → (n ≡ 1)
      × (d ≡ record db {
        ledger_entries = insert db.next_id e db.ledger_entries;
        next_id = suc db.next_id;
      })
unfolding insert_if_free
insert_fresh e db h =
    let (id, d, h0, k0) = bind-ok _ _ db h in
    let (_, d_is) = insert_entry-ok e db h0 in ground arith

insert_or_nothing_cases :
    (hash : ℕ) (e : LedgerEntry) (db : LedgerDb) {n : ℕ} {d : LedgerDb}
    → insert_or_nothing hash e db ≡ ok (n, d)
    → ((hash_taken hash db.ledger_entries ≡ true) × (n ≡ 0) × (d ≡ db))
      ⊎ ((hash_taken hash db.ledger_entries ≡ false)
          × (n ≡ 1)
          × (d ≡ record db {
            ledger_entries = insert db.next_id e db.ledger_entries;
            next_id = suc db.next_id;
          }))
unfolding insert_or_nothing
insert_or_nothing_cases hash e db {n} {d} h =
    let k = query-bind _ _ db h in
    elim (Bool-cases (hash_taken hash db.ledger_entries)) [
      | inl taken ↦
          inl (taken, unfold insert_if_free in ground arith, unfold insert_if_free in ground arith)
      | inr fresh ↦ (let (one, d_is) = inserted fresh k in inr (fresh, one, d_is))
    ]
  where
    inserted :
        hash_taken hash db.ledger_entries ≡ false
        → insert_if_free (hash_taken hash db.ledger_entries) e db ≡ ok (n, d)
        → (n ≡ 1)
          × (d ≡ record db {
            ledger_entries = insert db.next_id e db.ledger_entries;
            next_id = suc db.next_id;
          })
    inserted fresh k = insert_fresh e db (subst (λ b. insert_if_free b e db ≡ ok (n, d)) fresh k)

credit-Deposited :
    (u : ℕ) (wallet : Str) (t c : Asset) (x hash : ℕ) (raw : Str) (db : LedgerDb) {y : Unit {0}}
    {db' : LedgerDb}
    → validate_positive_amount raw ≡ ok x
    → credit_balance_tx u (name c) raw (record db {
      ledger_entries = insert db.next_id (deposit_entry u wallet t x hash) db.ledger_entries;
      next_id = suc db.next_id;
    })
      ≡ ok (y, db')
    → Deposited u wallet t c x hash db db'
credit-Deposited u wallet t c x hash raw db amount h =
    let (a, z, reads, credited) = credit_balance_tx-Credited u (name c) raw _ h in
    let same_asset : a ≡ c = ground (arith, reads, normalize_asset-name c) in
    let same_amount : z ≡ x = ground (arith, reads) in
    unfold balance_of locked_of total in
    record {
      entries = credited.keeps.entries;
      balances = λ v k. ground (arith, credited.balances v k);
      lockeds = λ v k. credited.lockeds v k;
      totals = λ k. ground (arith, credited.totals k);
    }

-- A deposit that succeeds has read its assets and its positive amount. If an entry has its hash
-- already, nothing changes; otherwise it is recorded, and the amount is credited, one to one, in
-- the credit asset.
pub insert_deposit_credits :
    (u : ℕ) (wallet token credit_token raw : Str) (hash : ℕ) (db : LedgerDb) {db' : LedgerDb}
    → insert_deposit u wallet token credit_token raw hash db ≡ (ok tt, db')
    → (t : Asset) × (c : Asset) × (x : ℕ) × (normalize_asset token ≡ ok t)
      × Reads credit_token raw c x
      × (((hash_taken hash db.ledger_entries ≡ true) × (db' ≡ db))
          ⊎ ((hash_taken hash db.ledger_entries ≡ false) × Deposited u wallet t c x hash db db'))
unfolding insert_deposit credit_if_new
insert_deposit_credits u wallet token credit_token raw hash db {db'} h =
    let (t, token_read, k) = given-bind _ _ db (transact-ok _ db h) in
    let (c, credit_read, k1) = given-bind _ _ db k in
    let (x, amount_read, k2) = given-bind _ _ db k1 in
    let (n, d, h3, k3) = bind-ok _ _ db k2 in
    (
      t,
      c,
      x,
      token_read,
      record { asset_read = credit_read; amount_read = amount_read },
      elim (insert_or_nothing_cases hash (deposit_entry u wallet t x hash) db h3) [
        | inl (taken, none_inserted, d_is) ↦ inl (taken, ground arith)
        | inr (fresh, one_inserted, d_is) ↦ inr (
          fresh,
          credit-Deposited u wallet t c x hash raw db amount_read (rw (← d_is) (ground arith)),
        )
      ],
    )

-- With its hash taken, a deposit leaves the tables alone, however it ends.
insert_deposit_taken :
    (u : ℕ) (wallet token credit_token raw : Str) (hash : ℕ) (db : LedgerDb)
    → hash_taken hash db.ledger_entries ≡ true
    → (insert_deposit u wallet token credit_token raw hash db).1 ≡ db
insert_deposit_taken u wallet token credit_token raw hash db taken =
    elim (Result-cases (insert_deposit u wallet token credit_token raw hash db).0) [
      | inl (_, done) ↦
          let (_, _, _, _, _, cases) =
            insert_deposit_credits u wallet token credit_token raw hash db
              {db' = (insert_deposit u wallet token credit_token raw hash db).1} (ground arith) in
          ground arith
      | inr (e, failed) ↦ unfold insert_deposit in transact-err _ db failed
    ]

-- After a deposit that succeeded its hash is taken.
hash_taken-insert_deposit :
    (u : ℕ) (wallet token credit_token raw : Str) (hash : ℕ) (db : LedgerDb) {d : LedgerDb}
    → insert_deposit u wallet token credit_token raw hash db ≡ (ok tt, d)
    → hash_taken hash d.ledger_entries ≡ true
hash_taken-insert_deposit u wallet token credit_token raw hash db {d} h =
    let (t, c, x, _, _, cases) = insert_deposit_credits u wallet token credit_token raw hash db h in
    elim cases [
      | inl (taken, d_is) ↦ rw d_is taken
      | inr (_, deposited) ↦ rw deposited.entries (
          hash_taken-insert hash db.next_id (deposit_entry u wallet t x hash) db.ledger_entries
            refl)
    ]

-- A second deposit with the hash of a deposit that succeeded, whatever else it names and however
-- it ends, leaves the tables as the first one left them.
pub insert_deposit_once :
    (u v : ℕ) (wallet token credit_token raw wallet' token' credit_token' raw' : Str) (hash : ℕ)
    (db : LedgerDb) {d : LedgerDb}
    → insert_deposit u wallet token credit_token raw hash db ≡ (ok tt, d)
    → (insert_deposit v wallet' token' credit_token' raw' hash d).1 ≡ d
insert_deposit_once u v wallet token credit_token raw wallet' token' credit_token' raw' hash db {d}
      h =
    insert_deposit_taken v wallet' token' credit_token' raw' hash d
      (hash_taken-insert_deposit u wallet token credit_token raw hash db h)
