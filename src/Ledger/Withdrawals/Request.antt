-- ===== src/Ledger/Withdrawals/Request.antt =====
-- A withdrawal request reserves its amount.
use dex_backend.Base.{ℕ, ◌+◌, ◌≤◌, some, ==_iff, ◌≡◌, ◌∙◌, sym, ap, refl, none, arith}
use dex_backend.Base.Key.{nat_key}
use dex_backend.Result.{ok}
use dex_backend.Text.Bytes.{Str, to_lower}
use dex_backend.Asset.{Asset}
use dex_backend.Asset.Laws.{asset_eq_iff}
use dex_backend.Table.{Table, insert}
use dex_backend.Table.Laws.{sum-insert}
use dex_backend.Schema.{LedgerKind, pending, LedgerEntry, LedgerDb}
use dex_backend.Tx.Laws.{bind-ok, query-bind, found-bind, check-bind, transact-ok}
use dex_backend.Ledger.{hold_of, pending_withdrawal_hold}
use dex_backend.Ledger.Cells.{balance_of, locked_of, at, lock_balance_tx-Same}
use dex_backend.Ledger.Transfers.Steps.{Reads, Reads-bind}
use dex_backend.Ledger.Holds.Laws.{IsSolvent, hold-Keeps}
use dex_backend.Ledger.Deposits.Laws.{insert_entry-ok}
use dex_backend.Ledger.Withdrawals.{insert_withdrawal_request, pending_withdrawal_request}

abbrev pub request_entry : ℕ → Str → Asset → ℕ → LedgerEntry
request_entry user wallet t x = record {
  user = user;
  wallet_address = to_lower wallet;
  kind = LedgerKind.withdrawal_request;
  token = t;
  amount = x;
  tx_hash = none;
  status = pending;
}

-- The request stands under the next id, its amount is held, and no balance has changed.
pub record Requested (u : ℕ) (wallet : Str) (t : Asset) (x : ℕ) (db db' : LedgerDb) : Type 0 where
  pub entries :
      db'.ledger_entries ≡ insert db.next_id (request_entry u wallet t x) db.ledger_entries
  pub holds :
      (v : ℕ) (c : Asset)
      → pending_withdrawal_hold v c db' ≡ pending_withdrawal_hold v c db + at u t v c x
  pub balances : (v : ℕ) (c : Asset) → balance_of db' v c ≡ balance_of db v c
  pub lockeds : (v : ℕ) (c : Asset) → locked_of db' v c ≡ locked_of db v c

hold-request :
    (u v : ℕ) (wallet : Str) (t c : Asset) (x id : ℕ) (db : LedgerDb) (rows : Table ℕ LedgerEntry)
    → db.ledger_entries ≡ insert id (request_entry u wallet t x) rows
    → (d : LedgerDb) → d.ledger_entries ≡ rows
    → pending_withdrawal_hold v c db ≡ pending_withdrawal_hold v c d + at u t v c x
unfolding pending_withdrawal_hold hold_of
hold-request u v wallet t c x id db rows e d f =
    rw (e, f)
      (ground (arith, sum-insert (λ _ e. hold_of v c e) id (request_entry u wallet t x) rows))

-- A withdrawal request that succeeds has read its asset and its positive amount, which is covered
-- by what is neither locked nor held already. It is recorded as pending under the id returned; the
-- user's hold of that asset grows by the amount and no other hold does, no balance and no lock
-- changes, and the user is solvent.
pub insert_withdrawal_request_holds :
    (u : ℕ) (wallet token raw : Str) (db : LedgerDb) {id : ℕ} {db' : LedgerDb}
    → insert_withdrawal_request u wallet token raw db ≡ (ok id, db')
    → (t : Asset) × (x : ℕ) × Reads token raw t x
      × (id ≡ db.next_id)
      × (locked_of db u t + pending_withdrawal_hold u t db + x ≤ balance_of db u t)
      × Requested u wallet t x db db'
      × IsSolvent db' u t
unfolding insert_withdrawal_request
insert_withdrawal_request_holds u wallet token raw db {id} {db'} h =
    let (t, x, reads, k) = Reads-bind token raw _ db (transact-ok _ db h) in
    let (_, d, h1, k1) = bind-ok _ _ db k in
    let (r, row, k2) = found-bind _ _ _ d (query-bind _ _ d (query-bind _ _ d k1)) in
    let (covered, k3) = check-bind _ _ _ d k2 in
    let (id_is, db'_is) = insert_entry-ok (request_entry u wallet t x) d k3 in
    let same = lock_balance_tx-Same u db h1 in
    let requested : Requested u wallet t x db db' = record {
      entries = ground (arith, same.keeps);
      holds = λ v c. ground (
        arith,
        hold-Keeps v c same.keeps,
        hold-request u v wallet t c x d.next_id db' d.ledger_entries (ground arith) d refl,
      );
      balances = λ v c. ground (arith, same.balances v c, moved v c d db'_is);
      lockeds = λ v c. ground (arith, same.lockeds v c, kept v c d db'_is);
    } in
    let balance : r.balance t ≡ balance_of db u t =
      unfold balance_of in ground (arith, same.balances u t) in
    let locked : r.locked t ≡ locked_of db u t =
      unfold locked_of in ground (arith, same.lockeds u t) in
    let fits : locked_of db u t + pending_withdrawal_hold u t db + x ≤ balance_of db u t =
      ground (arith, hold-Keeps u t same.keeps) in
    (
      t,
      x,
      reads,
      ground (arith, same.keeps),
      fits,
      requested,
      ground (
        arith,
        requested.holds u t,
        requested.balances u t,
        requested.lockeds u t,
        asset_eq_iff t t,
      ),
    )
  where
    moved :
        (v : ℕ) (c : Asset) (d : LedgerDb) {e : LedgerDb} {rows : Table ℕ LedgerEntry} {n : ℕ}
        → e ≡ record d { ledger_entries = rows; next_id = n }
        → balance_of e v c ≡ balance_of d v c
    moved v c d e_is = rw e_is (unfold balance_of in refl)

    kept :
        (v : ℕ) (c : Asset) (d : LedgerDb) {e : LedgerDb} {rows : Table ℕ LedgerEntry} {n : ℕ}
        → e ≡ record d { ledger_entries = rows; next_id = n }
        → locked_of e v c ≡ locked_of d v c
    kept v c d e_is = rw e_is (unfold locked_of in refl)

-- After a withdrawal request that succeeds, the user's pending request that is reported is that one:
-- it has the id that was returned, and the asset and the amount that were read, unpaid.
pub insert_withdrawal_request-pending :
    (u : ℕ) (wallet token raw : Str) (db : LedgerDb) {id : ℕ} {db' : LedgerDb}
    → insert_withdrawal_request u wallet token raw db ≡ (ok id, db')
    → (t : Asset) × (x : ℕ) × Reads token raw t x
      × (pending_withdrawal_request u db' ≡ some (id, request_entry u wallet t x))
insert_withdrawal_request-pending u wallet token raw db {id} {db'} h =
    let (t, x, reads, id_is, _, requested, _) =
      insert_withdrawal_request_holds u wallet token raw db h in
    (
      t,
      x,
      reads,
      found_first t x db' requested.entries
          ∙ ap (λ i. some (i, request_entry u wallet t x)) (sym id_is),
    )
  where
    found_first :
        (t : Asset) (x : ℕ) (e : LedgerDb)
        → e.ledger_entries ≡ insert db.next_id (request_entry u wallet t x) db.ledger_entries
        → pending_withdrawal_request u e ≡ some (db.next_id, request_entry u wallet t x)
    found_first t x e is =
        unfold pending_withdrawal_request insert in ground (arith, is, ==_iff u u)
