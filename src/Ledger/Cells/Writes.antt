-- ===== src/Ledger/Cells/Writes.antt =====
-- What an UPDATE of one user's balances writes.
use dex_backend.Base.{
  ℕ, ◌≡◌, Bool, true, false, some, arith, Option-cases, Bool-cases, sym, ◌⊎◌, inl, inr, ==_iff,
  if◌then◌else◌,
}
use mathlib.Core.Path.{subst}
use dex_backend.Base.Key.{nat_key}
use dex_backend.Result.{ok}
use dex_backend.Asset.{Asset, asset_eq}
use dex_backend.Asset.Laws.{asset_eq_iff}
use dex_backend.Table.{select, insert, update}
use dex_backend.Table.Laws.{select-update_self, select-update_ne, sum-update}
use dex_backend.Schema.{Balances, LedgerDb, no_balances}
use dex_backend.Ledger.{lock_balance_tx, update_balances}
use dex_backend.Ledger.Cells.{
  balance_of, locked_of, total, Same, Wrote, IsKnown, lock_balance_tx-Same, lock_balance_tx_row,
  Same-Wrote,
}

-- The statement's test and its new values, from the balance and the locked amount of one asset.
module _ (u : ℕ) (a : Asset) (where_ : Balances → Bool) (set : Balances → Balances)
    (p : ℕ → ℕ → Bool) (f g : ℕ → ℕ → ℕ) where
  -- An UPDATE that reads and writes only the columns of asset `a`.
  pub record OnCell : Type 0 where
    pub tests : (r : Balances) → where_ r ≡ p (r.balance a) (r.locked a)
    pub sets_balance :
        (r : Balances) (c : Asset)
        → (set r).balance c ≡ (if asset_eq a c then f (r.balance a) (r.locked a) else r.balance c)
    pub sets_locked :
        (r : Balances) (c : Asset)
        → (set r).locked c ≡ (if asset_eq a c then g (r.balance a) (r.locked a) else r.locked c)

  update-Wrote :
      (db : LedgerDb) (r : Balances)
      → OnCell
      → select u db.user_balances ≡ some r
      → Wrote u a
          (f (r.balance a) (r.locked a))
          (g (r.balance a) (r.locked a))
          db
          (record db { user_balances = update u set db.user_balances })
  unfolding balance_of locked_of total
  update-Wrote db r o h = record {
    balances = λ v c. ground (
      arith,
      o.sets_balance r c,
      ==_iff u v,
      select-update_self u set db.user_balances r,
      select-update_ne u v set db.user_balances,
    );
    lockeds = λ v c. ground (
      arith,
      o.sets_locked r c,
      ==_iff u v,
      select-update_self u set db.user_balances r,
      select-update_ne u v set db.user_balances,
    );
    totals = λ c. ground (
      arith,
      o.sets_balance r c,
      asset_eq_iff a c,
      sum-update (λ _ q. q.balance c) u set db.user_balances r h,
    );
    keeps = ground arith;
  }

  -- An update: the user has no row or the test fails and nothing changes, or one cell is written.
  pub update_write :
      (d : LedgerDb) {e : LedgerDb} {n : ℕ}
      → OnCell
      → update_balances u where_ set d ≡ ok (n, e)
      → let b = balance_of d u a in
        let l = locked_of d u a in
        ((n ≡ 0) × (e ≡ d)) ⊎ ((n ≡ 1) × (p b l ≡ true) × Wrote u a (f b l) (g b l) d e)
  unfolding update_balances
  update_write d {e} {n} o updates = elim (Option-cases (select u d.user_balances)) [
    | inl absent ↦ inl (ground arith)
    | inr (r, row) ↦
        let b : balance_of d u a ≡ r.balance a = unfold balance_of in ground arith in
        let l : locked_of d u a ≡ r.locked a = unfold locked_of in ground arith in
        elim (Bool-cases (where_ r)) [
          | inl passes ↦ inr (
            ground arith,
            ground (arith, o.tests r),
            rw (b, l)
                (subst (Wrote u a (f (r.balance a) (r.locked a)) (g (r.balance a) (r.locked a)) d)
                  (ground arith) (update-Wrote d r o row)),
          )
          | inr fails ↦ inl (ground arith)
        ]
  ]

  update_fails :
      (d : LedgerDb) (r : Balances) {e : LedgerDb}
      → OnCell
      → select u d.user_balances ≡ some r
      → update_balances u where_ set d ≡ ok (0, e)
      → p (balance_of d u a) (locked_of d u a) ≡ false
  unfolding update_balances balance_of locked_of
  update_fails d r o row updates = ground (arith, o.tests r)

  -- The row is locked, then updated: either the test fails and no balance changes, or one cell is
  -- written.
  pub locked_write :
      (db : LedgerDb) {x : Unit {0}} {d e : LedgerDb} {n : ℕ}
      → OnCell
      → lock_balance_tx u db ≡ ok (x, d)
      → update_balances u where_ set d ≡ ok (n, e)
      → let b = balance_of db u a in
        let l = locked_of db u a in
        ((n ≡ 0) × (p b l ≡ false) × Same db e)
        ⊎ ((n ≡ 1) × (p b l ≡ true) × Wrote u a (f b l) (g b l) db e)
  locked_write db {d = d} {e = e} {n = n} o locks updates =
      let (r, row) = lock_balance_tx_row u db locks in
      let same = lock_balance_tx-Same u db locks in
      let b = same.balances u a in
      let l = same.lockeds u a in
      elim (update_write d o updates) [
        | inl (none_changed, e_is) ↦ inl (
          none_changed,
          ground (
            arith,
            update_fails d r o row
                (subst (λ k. update_balances u where_ set d ≡ ok (k, e)) none_changed updates),
          ),
          subst (Same db) (sym e_is) same,
        )
        | inr (one, passes, w) ↦ inr (one, ground arith, rw (← b, ← l) (Same-Wrote same w))
      ]

pub lock_balance_tx_total :
    (u : ℕ) (db : LedgerDb)
    → IsKnown db u
    → (db' : LedgerDb) × (lock_balance_tx u db ≡ ok (tt, db'))
unfolding lock_balance_tx
lock_balance_tx_total u db h = elim (Option-cases (select u db.user_balances)) [
  | inl absent ↦ (record db { user_balances = insert u no_balances db.user_balances }, ground arith)
  | inr (r, present) ↦ (db, ground arith)
]

pub update_balances_total :
    (u : ℕ) (where_ : Balances → Bool) (set : Balances → Balances) (db : LedgerDb)
    → (n : ℕ) × (db' : LedgerDb) × (update_balances u where_ set db ≡ ok (n, db'))
unfolding update_balances
update_balances_total u where_ set db = elim (Option-cases (select u db.user_balances)) [
  | inl absent ↦ (0, db, ground arith)
  | inr (r, present) ↦ elim (Bool-cases (where_ r)) [
    | inl passes ↦ (1, record db { user_balances = update u set db.user_balances }, ground arith)
    | inr fails ↦ (0, db, ground arith)
  ]
]
