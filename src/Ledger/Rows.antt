-- ===== src/Ledger/Rows.antt =====
-- Which users have a row in user_balances.
use dex_backend.Base.{ℕ, ◌≡◌, Bool, true, [], ◌∷◌, arith, inl, inr, ==_iff, Option-cases}
use dex_backend.Base.Key.{nat_key}
use dex_backend.Result.{ok}
use dex_backend.Table.{select}
use dex_backend.Table.Laws.{select-update_self, select-update_ne, select-insert}
use dex_backend.Schema.{Balances, LedgerDb, no_balances}
use dex_backend.Tx.Laws.{bind-ok, check-ok}
use dex_backend.Ledger.{is_some, lock_balance_tx, add_rows, lock_balances_tx, update_balances}

abbrev pub HasRow : LedgerDb → ℕ → Type 0
HasRow db u = is_some (select u db.user_balances) ≡ true

pub update_balances-HasRow :
    (u v : ℕ) (where_ : Balances → Bool) (set : Balances → Balances) (db : LedgerDb) {n : ℕ}
    {db' : LedgerDb}
    → update_balances u where_ set db ≡ ok (n, db')
    → HasRow db v
    → HasRow db' v
unfolding update_balances
update_balances-HasRow u v where_ set db h row = elim (Option-cases (select u db.user_balances)) [
  | inl absent ↦ ground arith
  | inr (r, present) ↦ ground (
    arith,
    ==_iff u v,
    select-update_self u set db.user_balances r,
    select-update_ne u v set db.user_balances,
  )
]

pub lock_balance_tx-HasRow :
    (u : ℕ) (db : LedgerDb) {x : Unit {0}} {db' : LedgerDb}
    → lock_balance_tx u db ≡ ok (x, db')
    → HasRow db' u × ((v : ℕ) → HasRow db v → HasRow db' v)
unfolding lock_balance_tx
lock_balance_tx-HasRow u db h = elim (Option-cases (select u db.user_balances)) [
  | inl absent ↦ (
    ground (arith, select-insert u u no_balances db.user_balances),
    λ v row. ground (arith, select-insert u v no_balances db.user_balances),
  )
  | inr (r, present) ↦ (ground arith, λ v row. ground arith)
]

-- Locking the rows of two users leaves each with a row.
pub lock_balances_tx-HasRow :
    (u v : ℕ) (db : LedgerDb) {x : Unit {0}} {db' : LedgerDb}
    → lock_balances_tx (u ∷ v ∷ []) db ≡ ok (x, db')
    → HasRow db' u × HasRow db' v
unfolding lock_balances_tx add_rows
lock_balances_tx-HasRow u v db {db' = db'} h =
    let (_, d, h0, k0) = bind-ok _ _ db h in
    let (_, d1, h1, k1) = bind-ok _ _ db h0 in
    let (_, d2, h2, k2) = bind-ok _ _ d1 k1 in
    let (n, e, h3, k3) = bind-ok _ _ d k0 in
    let (_, e_is) = check-ok _ _ e k3 in
    let db'_is : db' ≡ d2 = ground arith in
    rw db'_is (
      (lock_balance_tx-HasRow v d1 h2).1 u (lock_balance_tx-HasRow u db h1).0,
      (lock_balance_tx-HasRow v d1 h2).0,
    )
