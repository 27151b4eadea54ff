-- ===== src/Ledger/Holds/Laws.antt =====
-- When a lock is granted, and what locking and unlocking do to the reserved amounts.
use mathlib.Core.Path.{subst}
use dex_backend.Base.{ℕ, ◌+◌, ◌≤◌, ◌≡◌, refl, leb, arith, inl, inr, leb→le}
use dex_backend.Base.Key.{nat_key}
use dex_backend.Result.{ok}
use dex_backend.Text.Bytes.{Str}
use dex_backend.Asset.{Asset}
use dex_backend.Asset.Laws.{asset_eq_iff}
use dex_backend.Schema.{LedgerDb, set_locked}
use dex_backend.Tx.Laws.{bind-ok, query-bind, check-ok, transact-ok}
use dex_backend.Ledger.{pending_withdrawal_hold}
use dex_backend.Ledger.Cells.{balance_of, locked_of, Keeps, Wrote, lock_balance_tx-Same}
use dex_backend.Ledger.Cells.Writes.{OnCell, locked_write}
use dex_backend.Ledger.Transfers.Steps.{Reads, Reads-bind}
use dex_backend.Ledger.Holds.{lock_balance, lock_balance_body}

-- The user's balance covers what open orders and open withdrawals hold of it.
abbrev pub IsSolvent : LedgerDb → ℕ → Asset → Type 0
IsSolvent db u a = locked_of db u a + pending_withdrawal_hold u a db ≤ balance_of db u a

pub hold-Keeps :
    (u : ℕ) (a : Asset) {db db' : LedgerDb}
    → Keeps db db'
    → pending_withdrawal_hold u a db' ≡ pending_withdrawal_hold u a db
unfolding pending_withdrawal_hold
hold-Keeps u a k = ground (arith, k)

lock-OnCell :
    (u : ℕ) (a : Asset) (x hold : ℕ)
    → OnCell u a
        (λ r. leb (x + hold + r.locked a) (r.balance a))
        (λ r. set_locked a (r.locked a + x) r)
        (λ b l. leb (x + hold + l) b)
        (λ b l. b)
        (λ b l. l + x)
lock-OnCell u a x hold = record {
  tests = λ r. refl;
  sets_balance = λ r c. ground (arith, asset_eq_iff a c);
  sets_locked = λ r c. refl;
}

lock_balance_body_effect :
    (u : ℕ) (a : Asset) (x : ℕ) (db : LedgerDb) {y : Unit {0}} {db' : LedgerDb}
    → lock_balance_body u a x db ≡ ok (y, db')
    → Wrote u a (balance_of db u a) (locked_of db u a + x) db db'
      × (x + pending_withdrawal_hold u a db + locked_of db u a ≤ balance_of db u a)
unfolding lock_balance_body
lock_balance_body_effect u a x db h =
    let (_, d, h0, k0) = bind-ok _ _ db h in
    let k1 = query-bind _ _ d k0 in
    let (n, d2, h2, k2) = bind-ok _ _ d k1 in
    let (some_row, e2) = check-ok _ _ d2 k2 in
    let hold = pending_withdrawal_hold u a d in
    let held : hold ≡ pending_withdrawal_hold u a db =
      hold-Keeps u a (lock_balance_tx-Same u db h0).keeps in
    elim (locked_write u a _ _ _ _ _ db (lock-OnCell u a x hold) h0 h2) [
      | inl (no_row, _, _) ↦ absurd (ground arith)
      | inr (_, covered, w) ↦ (
        subst (Wrote u a (balance_of db u a) (locked_of db u a + x) db) (ground arith) w,
        ground (arith, leb→le _ _ covered, held),
      )
    ]

-- A lock that is granted was covered by what is neither locked nor held for a withdrawal; it
-- raises the locked amount by exactly that much, changes nothing else, and leaves the user solvent.
pub lock_balance_reserves :
    (u : ℕ) (asset raw : Str) (db : LedgerDb) {db' : LedgerDb}
    → lock_balance u asset raw db ≡ (ok tt, db')
    → (a : Asset) × (x : ℕ) × Reads asset raw a x
      × (x + pending_withdrawal_hold u a db + locked_of db u a ≤ balance_of db u a)
      × Wrote u a (balance_of db u a) (locked_of db u a + x) db db'
      × IsSolvent db' u a
unfolding lock_balance
lock_balance_reserves u asset raw db h =
    let (a, x, reads, k) = Reads-bind asset raw _ db (transact-ok _ db h) in
    let (w, covered) = lock_balance_body_effect u a x db k in
    (
      a,
      x,
      reads,
      covered,
      w,
      ground (arith, w.balances u a, w.lockeds u a, hold-Keeps u a w.keeps, asset_eq_iff a a),
    )
