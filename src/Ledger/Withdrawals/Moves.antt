-- ===== src/Ledger/Withdrawals/Moves.antt =====
-- Where each call of a withdrawal request's life moves the status of the entries.
use mathlib.Core.Path.{subst}
use dex_backend.Base.{
  ℕ, ◌≡◌, ◌∙◌, refl, ap, Bool, true, ◌&&◌, ◌⊎◌, inl, inr, Option, none, some, ◌==◌, arith, ==_iff,
  Bool-cases, Option-cases,
}
use dex_backend.Base.Key.{nat_key}
use dex_backend.Result.{ok, Result-cases}
use dex_backend.Table.{Table, select, update}
use dex_backend.Table.Laws.{select-update_self, select-update_ne}
use dex_backend.Schema.{
  LedgerStatus, pending, processing, confirmed, failed, rejected, LedgerEntry, LedgerDb,
}
use dex_backend.Tx.{Tx, transact}
use dex_backend.Tx.Laws.{bind-ok, query-bind, found-bind, check-bind, transact-ok, transact-err}
use dex_backend.Ledger.{is_request}
use dex_backend.Ledger.Cells.{lock_balance_tx-Same}
use dex_backend.Ledger.Transfers.Steps.{debit_balance_tx-Debited}
use dex_backend.Ledger.Withdrawals.{
  is_pending, is_processing, requests, set_status, move_request, confirm_with, confirm_entry,
  any_status, mark_withdrawal_processing, mark_withdrawal_confirmed, mark_withdrawal_failed,
  reject_withdrawal_request,
}

-- The diagram of `status`.
pub data Advance : LedgerStatus → LedgerStatus → Type 0 where
  claim : Advance pending processing
  refuse : Advance pending rejected
  pay : Advance processing confirmed
  give_up : Advance processing failed

-- The entry is about the same request, and its status is the same or a step further.
pub record Follows (e e' : LedgerEntry) : Type 0 where
  pub user : e'.user ≡ e.user
  pub kind : e'.kind ≡ e.kind
  pub token : e'.token ≡ e.token
  pub amount : e'.amount ≡ e.amount
  pub status : (e'.status ≡ e.status) ⊎ Advance e.status e'.status

-- Every entry of the first table is in the second, where it follows.
abbrev pub Moved : Table ℕ LedgerEntry → Table ℕ LedgerEntry → Type 0
Moved rows rows' =
    (j : ℕ) (e : LedgerEntry)
    → select j rows ≡ some e
    → (e' : LedgerEntry) × (select j rows' ≡ some e') × Follows e e'

Follows-refl : (e : LedgerEntry) → Follows e e
Follows-refl e = record { user = refl; kind = refl; token = refl; amount = refl; status = inl refl }

Moved-refl : {rows rows' : Table ℕ LedgerEntry} → rows' ≡ rows → Moved rows rows'
Moved-refl same j e h = (e, rw same h, Follows-refl e)

Moved-update :
    (id : ℕ) (g : LedgerEntry → LedgerEntry) (rows : Table ℕ LedgerEntry) (a : LedgerEntry)
    → select id rows ≡ some a
    → Follows a (g a)
    → Moved rows (update id g rows)
Moved-update id g rows a at_id follows j e h = elim (Bool-cases (id == j)) [
  | inl same ↦
      let j_is : id ≡ j = ground (arith, ==_iff id j) in
      let e_is : e ≡ a = ground arith in
      (
        g a,
        subst (λ k. select k (update id g rows) ≡ some (g a)) j_is
            (select-update_self id g rows a at_id),
        rw e_is follows,
      )
  | inr other ↦ (e, select-update_ne id j g rows other ∙ h, Follows-refl e)
]

-- The status of a request that a test admits goes along the diagram.
abbrev Admits : (LedgerStatus → Bool) → LedgerStatus → Type 0
Admits test to = (s : LedgerStatus) → test s ≡ true → Advance s to

move_request-Moved :
    (id : ℕ) (test : LedgerStatus → Bool) (to : LedgerStatus) (db : LedgerDb)
    {o : Option LedgerEntry} {d : LedgerDb}
    → Admits test to
    → move_request id test to db ≡ ok (o, d)
    → Moved db.ledger_entries d.ledger_entries
unfolding move_request requests
move_request-Moved id test to db admits h = elim (Option-cases (select id db.ledger_entries)) [
  | inl absent ↦ Moved-refl (ground arith)
  | inr (e, present) ↦ elim (Bool-cases (is_request e.kind && test e.status)) [
    | inr refused ↦ Moved-refl (ground arith)
    | inl passes ↦
        let follows : Follows e (set_status to e) = record {
          user = refl;
          kind = refl;
          token = refl;
          amount = refl;
          status = inr (admits e.status (ground arith));
        } in
        subst (Moved db.ledger_entries) {x = update id (set_status to) db.ledger_entries}
          (ground arith) (Moved-update id (set_status to) db.ledger_entries e present follows)
  ]
]

pending-claim : Admits is_pending processing
pending-claim pending h = claim
pending-claim _ h = cc

pending-refuse : Admits is_pending rejected
pending-refuse pending h = refuse
pending-refuse _ h = cc

processing-give_up : Admits is_processing failed
processing-give_up processing h = give_up
processing-give_up _ h = cc

processing-pay : Admits is_processing confirmed
processing-pay processing h = pay
processing-pay _ h = cc

-- A method moves entries along if it does so whenever it commits.
transact-Moved :
    {A : Type 0} (m : Tx LedgerDb A) (db : LedgerDb)
    → ((a : A) (d : LedgerDb) → m db ≡ ok (a, d) → Moved db.ledger_entries d.ledger_entries)
    → Moved db.ledger_entries (transact m db).1.ledger_entries
transact-Moved m db commits = elim (Result-cases (transact m db).0) [
  | inl (a, done) ↦ commits a (transact m db).1 (transact-ok m db (ground arith))
  | inr (e, ended) ↦ Moved-refl (ap (λ (d : LedgerDb). d.ledger_entries) (transact-err m db ended))
]

pub process-Moved :
    (id : ℕ) (db : LedgerDb)
    → Moved db.ledger_entries (mark_withdrawal_processing id db).1.ledger_entries
unfolding mark_withdrawal_processing
process-Moved id db = transact-Moved _ db λ a d h.
    let (row, d0, h0, k0) = bind-ok _ _ db h in
    let (e, found, k1) = found-bind _ _ _ d0 k0 in
    let (_, d1, h2, k2) = bind-ok _ _ d0 k1 in
    let same = lock_balance_tx-Same e.user d0 h2 in
    subst (Moved db.ledger_entries) {x = d0.ledger_entries} (ground (arith, same.keeps))
      (move_request-Moved id is_pending processing db pending-claim h0)

pub fail-Moved :
    (id : ℕ) (db : LedgerDb)
    → Moved db.ledger_entries (mark_withdrawal_failed id db).1.ledger_entries
unfolding mark_withdrawal_failed
fail-Moved id db = transact-Moved _ db λ a d h.
    let (row, d0, h0, k0) = bind-ok _ _ db h in
    subst (Moved db.ledger_entries) {x = d0.ledger_entries} (ground arith)
      (move_request-Moved id is_processing failed db processing-give_up h0)

pub reject-Moved :
    (id : ℕ) (db : LedgerDb)
    → Moved db.ledger_entries (reject_withdrawal_request id db).1.ledger_entries
unfolding reject_withdrawal_request
reject-Moved id db = transact-Moved _ db λ a d h.
    let (row, d0, h0, k0) = bind-ok _ _ db h in
    let (e, found, k1) = found-bind _ _ _ d0 k0 in
    subst (Moved db.ledger_entries) {x = d0.ledger_entries} (ground arith)
      (move_request-Moved id is_pending rejected db pending-refuse h0)

-- What the query of a request returns.
pub requests-eq :
    (test : LedgerStatus → Bool) (o : Option LedgerEntry) {e : LedgerEntry}
    → requests test o ≡ some e
    → (o ≡ some e) × (is_request e.kind ≡ true) × (test e.status ≡ true)
unfolding requests
requests-eq test none h = cc
requests-eq test (some a) h = elim (Bool-cases (is_request a.kind && test a.status)) [
  | inl passes ↦ ground arith
  | inr fails ↦ ground arith
]

confirm_entry-Moved :
    (id hash : ℕ) (e : LedgerEntry) (db : LedgerDb) {a : LedgerEntry} {d : LedgerDb}
    → select id db.ledger_entries ≡ some e
    → is_processing e.status ≡ true
    → confirm_entry id hash e db ≡ ok (a, d)
    → Moved db.ledger_entries d.ledger_entries
unfolding confirm_entry
confirm_entry-Moved id hash e db present was h =
    let (free, k) = check-bind _ _ _ db (query-bind _ _ db h) in
    let follows : Follows e (confirm_with hash e) = record {
      user = refl;
      kind = refl;
      token = refl;
      amount = refl;
      status = inr (processing-pay e.status was);
    } in
    subst (Moved db.ledger_entries) {x = update id (confirm_with hash) db.ledger_entries}
      (ground arith) (Moved-update id (confirm_with hash) db.ledger_entries e present follows)

pub confirm-Moved :
    (id hash : ℕ) (db : LedgerDb)
    → Moved db.ledger_entries (mark_withdrawal_confirmed id hash db).1.ledger_entries
unfolding mark_withdrawal_confirmed
confirm-Moved id hash db = transact-Moved _ db λ a d h.
    let (e, found, k0) = found-bind _ _ _ db (query-bind _ _ db h) in
    let (was, k1) = check-bind _ _ _ db k0 in
    let (_, d1, h2, k2) = bind-ok _ _ db k1 in
    let (_, _, _, debited) = debit_balance_tx-Debited e.user _ _ db h2 in
    let (present, _, _) = requests-eq any_status _ found in
    let same = debited.keeps.entries in
    subst (λ rows. Moved rows d.ledger_entries) same
      (confirm_entry-Moved id hash e d1 (rw same present) was k2)
