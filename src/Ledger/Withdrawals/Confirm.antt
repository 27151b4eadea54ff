-- ===== src/Ledger/Withdrawals/Confirm.antt =====
-- A confirmed withdrawal is paid out, and paid once.
use dex_backend.Base.{ℕ, ◌+◌, ◌≤◌, ◌≡◌, ◌∙◌, refl, ap, true, false, some, zero, suc, arith}
use mathlib.Core.Path.{subst}
use dex_backend.Base.Key.{nat_key}
use dex_backend.Result.{ok, err, Err}
use dex_backend.Text.Decimal.{string}
use dex_backend.Text.Decimal.RoundTrip.{set_string-string}
use dex_backend.Asset.{Asset, name}
use dex_backend.Asset.Laws.{normalize_asset-name}
use dex_backend.Table.{Table, select, update}
use dex_backend.Table.Laws.{select-update_self}
use dex_backend.Schema.{confirmed, LedgerEntry, LedgerDb}
use dex_backend.Tx.{◌>>=◌, transact}
use dex_backend.Tx.Laws.{bind-ok, query-bind, found-bind, check-bind, transact-ok}
use dex_backend.Ledger.{is_request, debit_balance_tx, validate_positive_amount}
use dex_backend.Ledger.Cells.{balance_of, locked_of, at}
use dex_backend.Ledger.Transfers.Steps.{Reads, Debited, debit_balance_tx-Debited}
use dex_backend.Ledger.Withdrawals.{
  is_processing, requests, confirm_with, confirm_entry, any_status, mark_withdrawal_confirmed,
}
use dex_backend.Ledger.Withdrawals.Moves.{requests-eq}

amount-printed : (n : ℕ) {x : ℕ} → validate_positive_amount (string n) ≡ ok x → x ≡ n
unfolding validate_positive_amount
amount-printed zero h = ground (arith, set_string-string zero)
amount-printed (suc n) h = ground (arith, set_string-string (suc n))

-- The statement's arguments, printed from an entry, are read as they stand in it.
Reads-printed : {t a : Asset} {n x : ℕ} → Reads (name t) (string n) a x → (a ≡ t) × (x ≡ n)
Reads-printed {t} {a} {n} {x} reads =
    (ground (arith, reads.asset_read, normalize_asset-name t), amount-printed n reads.amount_read)

-- The debit of an entry's amount, by the names that it prints.
debit-printed :
    (u n : ℕ) (t : Asset) (db : LedgerDb) {y : Unit {0}} {d : LedgerDb}
    → debit_balance_tx u (name t) (string n) db ≡ ok (y, d)
    → Debited u t n db d
debit-printed u n t db {d = d} h =
    let (a, x, reads, debited) = debit_balance_tx-Debited u _ _ db h in
    let (a_is, x_is) = Reads-printed reads in
    subst (λ b. Debited u b n db d) a_is (subst (λ m. Debited u a m db d) x_is debited)

-- A confirmed request is refused.
confirm-again :
    (id again : ℕ) (e : LedgerEntry) (db : LedgerDb)
    → select id db.ledger_entries ≡ some e
    → is_request e.kind ≡ true
    → is_processing e.status ≡ false
    → mark_withdrawal_confirmed id again db ≡ (err Err.not_processing, db)
unfolding mark_withdrawal_confirmed transact ◌>>=◌ requests
confirm-again id again e db h request done = ground arith

-- The withdrawal `e` is paid: its user had the amount, and only that balance has fallen, by the
-- amount; no lock has changed, and only that entry has, to be confirmed with the hash.
pub record Paid (id hash : ℕ) (e : LedgerEntry) (db db' : LedgerDb) : Type 0 where
  pub covered : e.amount ≤ balance_of db e.user e.token
  pub balances :
      (v : ℕ) (c : Asset) → balance_of db' v c + at e.user e.token v c e.amount ≡ balance_of db v c
  pub lockeds : (v : ℕ) (c : Asset) → locked_of db' v c ≡ locked_of db v c
  pub entries :
      db'.ledger_entries
      ≡ update id (λ r. record r { status = confirmed; tx_hash = some hash }) db.ledger_entries

confirm_entry-ok :
    (id hash : ℕ) (e : LedgerEntry) (d : LedgerDb) {a : LedgerEntry} {db : LedgerDb}
    → confirm_entry id hash e d ≡ ok (a, db)
    → (a ≡ confirm_with hash e)
      × (db ≡ record d { ledger_entries = update id (confirm_with hash) d.ledger_entries })
unfolding confirm_entry
confirm_entry-ok id hash e d h =
    let (_, k) = check-bind _ _ _ d (query-bind _ _ d h) in ground arith

balance-entries :
    (v : ℕ) (c : Asset) (d : LedgerDb) {db : LedgerDb} {rows : Table ℕ LedgerEntry}
    → db ≡ record d { ledger_entries = rows }
    → balance_of db v c ≡ balance_of d v c
balance-entries v c d db_is = rw db_is (unfold balance_of in refl)

locked-entries :
    (v : ℕ) (c : Asset) (d : LedgerDb) {db : LedgerDb} {rows : Table ℕ LedgerEntry}
    → db ≡ record d { ledger_entries = rows }
    → locked_of db v c ≡ locked_of d v c
locked-entries v c d db_is = rw db_is (unfold locked_of in refl)

-- A withdrawal that is confirmed was a processing request. It is paid from the user's balance, and
-- returned as confirmed with the hash; to confirm it once more, with any hash, is refused and
-- changes nothing.
pub mark_withdrawal_confirmed_pays :
    (id hash : ℕ) (db : LedgerDb) {e' : LedgerEntry} {db' : LedgerDb}
    → mark_withdrawal_confirmed id hash db ≡ (ok e', db')
    → (e : LedgerEntry) × (select id db.ledger_entries ≡ some e)
      × (is_request e.kind ≡ true)
      × (is_processing e.status ≡ true)
      × (e' ≡ record e { status = confirmed; tx_hash = some hash })
      × Paid id hash e db db'
      × ((again : ℕ) → mark_withdrawal_confirmed id again db' ≡ (err Err.not_processing, db'))
mark_withdrawal_confirmed_pays id hash db {e'} {db'} h =
    unfold mark_withdrawal_confirmed in
    let (e, here, k0) = found-bind _ _ _ db (query-bind _ _ db (transact-ok _ db h)) in
    let (was, k1) = check-bind _ _ _ db k0 in
    let (_, d, h2, k2) = bind-ok _ _ db k1 in
    let debited = debit-printed e.user e.amount e.token db h2 in
    let (present, request, _) = requests-eq any_status _ here in
    let (e'_is, db'_is) = confirm_entry-ok id hash e d k2 in
    let entries : db'.ledger_entries ≡ update id (confirm_with hash) db.ledger_entries =
      ground (arith, debited.keeps.entries) in
    (
      e,
      present,
      request,
      was,
      e'_is,
      record {
        covered = debited.covered;
        balances = λ v c. ground (arith, debited.balances v c, balance-entries v c d db'_is);
        lockeds = λ v c. ground (arith, debited.lockeds v c, locked-entries v c d db'_is);
        entries = entries;
      },
      λ again.
          confirm-again id again (confirm_with hash e) db'
            (ap (λ rows. select id rows) entries
              ∙ select-update_self id (confirm_with hash) db.ledger_entries e present)
            request refl,
    )
