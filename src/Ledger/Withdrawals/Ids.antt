-- ===== src/Ledger/Withdrawals/Ids.antt =====
-- Moving a request gives out no id, and a claim finds it pending and leaves it processing.
use dex_backend.Base.{
  ℕ, suc, Bool, ◌≡◌, ◌∙◌, refl, ap, true, inl, inr, Option, none, some, [], ◌∷◌, arith,
  Option-cases,
}
use dex_backend.Base.Key.{nat_key}
use dex_backend.Result.{ok, err, Err, Result-cases}
use dex_backend.Text.Bytes.{Str}
use dex_backend.Table.{Table, select, insert, update}
use dex_backend.Table.Laws.{select-update_self}
use dex_backend.Schema.{LedgerStatus, processing, LedgerEntry, LedgerDb}
use dex_backend.Tx.{Tx, transact}
use dex_backend.Tx.Laws.{bind-ok, query-bind, found-bind, check-bind, transact-ok, transact-err}
use dex_backend.Ledger.Cells.{lock_balance_tx-Same}
use dex_backend.Ledger.Transfers.Steps.{Reads-bind, debit_balance_tx-Debited}
use dex_backend.Ledger.Deposits.Laws.{insert_entry-ok}
use dex_backend.Ledger.Withdrawals.Request.{request_entry}
use dex_backend.Ledger.Withdrawals.{
  is_pending, requests, set_status, move_request, confirm_with, confirm_entry,
  insert_withdrawal_request, mark_withdrawal_processing, mark_withdrawal_confirmed,
  mark_withdrawal_failed, reject_withdrawal_request,
}
use dex_backend.Ledger.Withdrawals.Moves.{requests-eq}

-- The next id is the same, and no id has an entry that had none.
pub record SameIds (db db' : LedgerDb) : Type 0 where
  pub next : db'.next_id ≡ db.next_id
  pub absent : (j : ℕ) → select j db.ledger_entries ≡ none → select j db'.ledger_entries ≡ none

select-update-none :
    (i j : ℕ) (g : LedgerEntry → LedgerEntry) (rows : Table ℕ LedgerEntry)
    → select j rows ≡ none
    → select j (update i g rows) ≡ none
unfolding select update
select-update-none i j g [] h = refl
select-update-none i j g ((l, e) ∷ rows) h = ground (arith, select-update-none i j g rows)

SameIds-refl :
    {db db' : LedgerDb}
    → db'.next_id ≡ db.next_id
    → db'.ledger_entries ≡ db.ledger_entries
    → SameIds db db'
SameIds-refl next rows = record { next = next; absent = λ j h. rw rows h }

SameIds-update :
    (id : ℕ) (g : LedgerEntry → LedgerEntry) {db db' : LedgerDb}
    → db'.next_id ≡ db.next_id
    → db'.ledger_entries ≡ update id g db.ledger_entries
    → SameIds db db'
SameIds-update id g {db} next rows = record {
  next = next;
  absent = λ j h. rw rows (select-update-none id j g db.ledger_entries h);
}

SameIds-then :
    {db d d' : LedgerDb}
    → SameIds db d
    → d'.next_id ≡ d.next_id
    → d'.ledger_entries ≡ d.ledger_entries
    → SameIds db d'
SameIds-then s next rows = record { next = next ∙ s.next; absent = λ j h. rw rows (s.absent j h) }

move_request-SameIds :
    (id : ℕ) (test : LedgerStatus → Bool) (to : LedgerStatus) (db : LedgerDb)
    {o : Option LedgerEntry} {d : LedgerDb}
    → move_request id test to db ≡ ok (o, d)
    → SameIds db d
unfolding move_request
move_request-SameIds id test to db h =
    elim (Option-cases (requests test (select id db.ledger_entries))) [
      | inl absent ↦ SameIds-refl (ground arith) (ground arith)
      | inr (e, present) ↦ SameIds-update id (set_status to) (ground arith) (ground arith)
    ]

transact-SameIds :
    {A : Type 0} (m : Tx LedgerDb A) (db : LedgerDb)
    → ((a : A) (d : LedgerDb) → m db ≡ ok (a, d) → SameIds db d)
    → SameIds db (transact m db).1
transact-SameIds m db commits = elim (Result-cases (transact m db).0) [
  | inl (a, done) ↦ commits a (transact m db).1 (transact-ok m db (ground arith))
  | inr (e, ended) ↦
      let same = transact-err m db ended in
      SameIds-refl (ap (λ (d : LedgerDb). d.next_id) same)
        (ap (λ (d : LedgerDb). d.ledger_entries) same)
]

pub process-SameIds : (id : ℕ) (db : LedgerDb) → SameIds db (mark_withdrawal_processing id db).1
unfolding mark_withdrawal_processing
process-SameIds id db = transact-SameIds _ db λ a d h.
    let (row, d0, h0, k0) = bind-ok _ _ db h in
    let (e, found, k1) = found-bind _ _ _ d0 k0 in
    let (_, d1, h2, k2) = bind-ok _ _ d0 k1 in
    let same = lock_balance_tx-Same e.user d0 h2 in
    SameIds-then (move_request-SameIds id is_pending processing db h0) (ground (arith, same.keeps))
      (ground (arith, same.keeps))

pub fail-SameIds : (id : ℕ) (db : LedgerDb) → SameIds db (mark_withdrawal_failed id db).1
unfolding mark_withdrawal_failed
fail-SameIds id db = transact-SameIds _ db λ a d h.
    let (row, d0, h0, k0) = bind-ok _ _ db h in
    SameIds-then (move_request-SameIds id _ _ db h0) (ground arith) (ground arith)

pub reject-SameIds : (id : ℕ) (db : LedgerDb) → SameIds db (reject_withdrawal_request id db).1
unfolding reject_withdrawal_request
reject-SameIds id db = transact-SameIds _ db λ a d h.
    let (row, d0, h0, k0) = bind-ok _ _ db h in
    let (e, found, k1) = found-bind _ _ _ d0 k0 in
    SameIds-then (move_request-SameIds id _ _ db h0) (ground arith) (ground arith)

pub confirm-SameIds :
    (id hash : ℕ) (db : LedgerDb) → SameIds db (mark_withdrawal_confirmed id hash db).1
unfolding mark_withdrawal_confirmed confirm_entry
confirm-SameIds id hash db = transact-SameIds _ db λ a d h.
    let (e, found, k0) = found-bind _ _ _ db (query-bind _ _ db h) in
    let (was, k1) = check-bind _ _ _ db k0 in
    let (_, d1, h2, k2) = bind-ok _ _ db k1 in
    let (_, _, _, debited) = debit_balance_tx-Debited e.user _ _ db h2 in
    let (free, k3) = check-bind _ _ _ d1 (query-bind _ _ d1 k2) in
    SameIds-update id (confirm_with hash) (ground (arith, debited.keeps))
      (ground (arith, debited.keeps))

-- A request that is claimed was pending and is processing.
pub process_claims :
    (id : ℕ) (db : LedgerDb) {e' : LedgerEntry} {d : LedgerDb}
    → mark_withdrawal_processing id db ≡ (ok e', d)
    → (e : LedgerEntry) × (select id db.ledger_entries ≡ some e)
      × (is_pending e.status ≡ true)
      × (e' ≡ set_status processing e)
      × (select id d.ledger_entries ≡ some e')
unfolding mark_withdrawal_processing move_request
process_claims id db {e'} {d} h =
    let (row, d0, h0, k0) = bind-ok _ _ db (transact-ok _ db h) in
    let (f, found, k1) = found-bind _ _ _ d0 k0 in
    let (_, d1, h2, k2) = bind-ok _ _ d0 k1 in
    let same = lock_balance_tx-Same f.user d0 h2 in
    elim (Option-cases (requests is_pending (select id db.ledger_entries))) [
      | inl absent ↦ absurd (ground arith)
      | inr (e, there) ↦
          let (present, request, was) = requests-eq is_pending _ there in
          let f_is : f ≡ set_status processing e = ground arith in
          let rows : d.ledger_entries ≡ update id (set_status processing) db.ledger_entries =
            ground (arith, same.keeps.entries) in
          (
            e,
            present,
            was,
            ground arith,
            ap (select id) rows
                ∙ select-update_self id (set_status processing) db.ledger_entries e present
                ∙ ap some (ground arith),
          )
    ]

-- A withdrawal request that is made takes a new id.
pub insert_withdrawal_request-new :
    (user : ℕ) (wallet token raw : Str) (db : LedgerDb) {id : ℕ} {d : LedgerDb}
    → insert_withdrawal_request user wallet token raw db ≡ (ok id, d)
    → (e : LedgerEntry) × (id ≡ db.next_id)
      × (d.next_id ≡ suc db.next_id)
      × (d.ledger_entries ≡ insert db.next_id e db.ledger_entries)
unfolding insert_withdrawal_request
insert_withdrawal_request-new user wallet token raw db {id} {d} h =
    let (t, x, reads, k) = Reads-bind token raw _ db (transact-ok _ db h) in
    let (_, e, h1, k1) = bind-ok _ _ db k in
    let (r, row, k2) = found-bind _ _ _ e (query-bind _ _ e (query-bind _ _ e k1)) in
    let (covered, k3) = check-bind _ _ _ e k2 in
    let (id_is, d_is) = insert_entry-ok (request_entry user wallet t x) e k3 in
    let same = lock_balance_tx-Same user db h1 in
    (
      request_entry user wallet t x,
      ground (arith, same.keeps),
      ground (arith, same.keeps),
      ground (arith, same.keeps),
    )

-- One that is refused changes nothing.
pub insert_withdrawal_request-refused :
    (user : ℕ) (wallet token raw : Str) (db : LedgerDb) {x : Err}
    → (insert_withdrawal_request user wallet token raw db).0 ≡ err x
    → (insert_withdrawal_request user wallet token raw db).1 ≡ db
unfolding insert_withdrawal_request
insert_withdrawal_request-refused user wallet token raw db h = transact-err _ db h
