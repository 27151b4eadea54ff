-- ===== src/Ledger/Cells.antt =====
-- The balances as a map from users and assets, and what the shared statements do to it.
pub mod Writes
use dex_backend.Base.{
  ℕ, ◌+◌, ◌-◌, ◌≤◌, ◌≡◌, refl, Bool, true, false, ◌&&◌, ◌||◌, Option, none, some, List, [], ◌∷◌,
  leb, ◌==◌, arith, Option-cases, Bool-cases, sym, ◌∙◌, ◌⊎◌, inl, inr, ==_iff, if◌then◌else◌,
}
use mathlib.Core.Path.{subst}
use dex_backend.Base.Key.{nat_key}
use dex_backend.Result.{Result, ok, err, Err}
use dex_backend.Asset.{Asset, asset_eq}
use dex_backend.Asset.Laws.{asset_eq_iff}
use dex_backend.Table.{select, insert, update, sum}
use dex_backend.Table.Laws.{
  select-update_self, select-update_ne, sum-update, select-insert, sum-insert,
}
use dex_backend.Schema.{Balances, LedgerDb, set_balance, set_locked, set_column, no_balances}
use dex_backend.Tx.Laws.{bind-ok, check-ok}
use dex_backend.Ledger.{add_rows, lock_balances_tx, lock_balance_tx, update_balances, is_some}

-- What `BalanceFor` reports: the column of the user's row, and 0 where there is no row.
unfoldable pub balance_of : LedgerDb → ℕ → Asset → ℕ
balance_of db u a = elim (select u db.user_balances) [ none ↦ 0 | some r ↦ r.balance a ]

unfoldable pub locked_of : LedgerDb → ℕ → Asset → ℕ
locked_of db u a = elim (select u db.user_balances) [ none ↦ 0 | some r ↦ r.locked a ]

-- All that is held of an asset, by all users.
unfoldable pub total : Asset → LedgerDb → ℕ
total a db = sum (λ _ r. r.balance a) db.user_balances

-- The other tables are as they were.
pub record Keeps (db db' : LedgerDb) : Type 0 where
  pub entries : db'.ledger_entries ≡ db.ledger_entries
  pub users : db'.users ≡ db.users
  pub next_id : db'.next_id ≡ db.next_id

-- No balance has changed. (A row of zeros may have been added.)
pub record Same (db db' : LedgerDb) : Type 0 where
  pub balances : (v : ℕ) (c : Asset) → balance_of db' v c ≡ balance_of db v c
  pub lockeds : (v : ℕ) (c : Asset) → locked_of db' v c ≡ locked_of db v c
  pub totals : (c : Asset) → total c db' ≡ total c db
  pub keeps : Keeps db db'

-- `x` in the cell of user `u` and asset `a`, and nothing in any other.
abbrev pub at : ℕ → Asset → ℕ → Asset → ℕ → ℕ
at u a v c x = if u == v && asset_eq a c then x else 0

-- The cell of one user and asset now has balance `b'` and locked `l'`, and no other has changed.
pub record Wrote (u : ℕ) (a : Asset) (b' l' : ℕ) (db db' : LedgerDb) : Type 0 where
  pub balances :
      (v : ℕ) (c : Asset)
      → balance_of db' v c ≡ (if u == v && asset_eq a c then b' else balance_of db v c)
  pub lockeds :
      (v : ℕ) (c : Asset)
      → locked_of db' v c ≡ (if u == v && asset_eq a c then l' else locked_of db v c)
  pub totals :
      (c : Asset)
      → total c db' + (if asset_eq a c then balance_of db u a else 0)
        ≡ total c db + (if asset_eq a c then b' else 0)
  pub keeps : Keeps db db'

pub lock_balance_tx-Same :
    (u : ℕ) (db : LedgerDb) {x : Unit {0}} {db' : LedgerDb}
    → lock_balance_tx u db ≡ ok (x, db')
    → Same db db'
unfolding lock_balance_tx balance_of locked_of total
lock_balance_tx-Same u db h = elim (Option-cases (select u db.user_balances)) [
  | inl absent ↦ record {
    balances = λ v c. ground (arith, select-insert u v no_balances db.user_balances);
    lockeds = λ v c. ground (arith, select-insert u v no_balances db.user_balances);
    totals = λ c. ground (arith, sum-insert (λ _ r. r.balance c) u no_balances db.user_balances);
    keeps = ground arith;
  }
  | inr (r, present) ↦ record {
    balances = λ v c. ground arith;
    lockeds = λ v c. ground arith;
    totals = λ c. ground arith;
    keeps = ground arith;
  }
]

pub lock_balance_tx_row :
    (u : ℕ) (db : LedgerDb) {x : Unit {0}} {db' : LedgerDb}
    → lock_balance_tx u db ≡ ok (x, db')
    → (r : Balances) × (select u db'.user_balances ≡ some r)
unfolding lock_balance_tx
lock_balance_tx_row u db h = elim (Option-cases (select u db.user_balances)) [
  | inl absent ↦ (no_balances, ground (arith, select-insert u u no_balances db.user_balances))
  | inr (r, present) ↦ (r, ground arith)
]

pub Same-refl : (db : LedgerDb) → Same db db
Same-refl db = record {
  balances = λ v c. refl;
  lockeds = λ v c. refl;
  totals = λ c. refl;
  keeps = ground arith;
}

pub Same-trans : {d e f : LedgerDb} → Same d e → Same e f → Same d f
Same-trans s t = record {
  balances = λ v c. t.balances v c ∙ s.balances v c;
  lockeds = λ v c. t.lockeds v c ∙ s.lockeds v c;
  totals = λ c. t.totals c ∙ s.totals c;
  keeps = ground (arith, s.keeps, t.keeps);
}

add_rows-Same :
    (us : List ℕ) (db : LedgerDb) {x : Unit {0}} {db' : LedgerDb}
    → add_rows us db ≡ ok (x, db')
    → Same db db'
unfolding add_rows
add_rows-Same [] db h = subst (Same db) (ground arith) (Same-refl db)
add_rows-Same (u ∷ us) db h =
    let (_, d, h0, k0) = bind-ok _ _ db h in
    Same-trans (lock_balance_tx-Same u db h0) (add_rows-Same us d k0)

pub lock_balances_tx-Same :
    (us : List ℕ) (db : LedgerDb) {x : Unit {0}} {db' : LedgerDb}
    → lock_balances_tx us db ≡ ok (x, db')
    → Same db db'
unfolding lock_balances_tx
lock_balances_tx-Same us db h =
    let (_, d, h0, k0) = bind-ok _ _ db h in
    let (n, e, h1, k1) = bind-ok _ _ d k0 in
    let (_, e2) = check-ok _ _ e k1 in subst (Same db) (ground arith) (add_rows-Same us db h0)

-- Where a statement that changes no balance precedes the write, the write counts from the start.
pub Same-Wrote :
    {u : ℕ} {a : Asset} {b' l' : ℕ} {d e f : LedgerDb}
    → Same d e
    → Wrote u a b' l' e f
    → Wrote u a b' l' d f
Same-Wrote {u} {a} s w = record {
  balances = λ v c. ground (arith, w.balances v c, s.balances v c);
  lockeds = λ v c. ground (arith, w.lockeds v c, s.lockeds v c);
  totals = λ c. ground (arith, w.totals c, s.totals c, s.balances u a);
  keeps = ground (arith, w.keeps, s.keeps);
}

-- A user of the users table can have its row locked.
abbrev pub IsKnown : LedgerDb → ℕ → Type 0
IsKnown db u = is_some (select u db.users) ≡ true
