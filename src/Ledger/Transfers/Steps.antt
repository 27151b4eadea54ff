-- ===== src/Ledger/Transfers/Steps.antt =====
-- What a credit or a debit inside a transaction does to the balances.
use dex_backend.Base.{
  ℕ, ◌+◌, ◌-◌, ◌≤◌, ◌≡◌, refl, true, leb, arith, inl, inr, leb→le, ==_iff, if◌then◌else◌,
}
use mathlib.Core.Path.{subst}
use dex_backend.Result.{ok}
use dex_backend.Text.Bytes.{Str}
use dex_backend.Asset.{Asset, asset_eq, normalize_asset}
use dex_backend.Asset.Laws.{asset_eq_iff}
use dex_backend.Schema.{LedgerDb, set_balance}
use dex_backend.Tx.{Tx, ◌>>=◌, given}
use dex_backend.Tx.Laws.{bind-ok, given-bind, check-ok}
use dex_backend.Ledger.{validate_positive_amount, credit_balance_tx, debit_balance_tx, always}
use dex_backend.Ledger.Cells.{balance_of, locked_of, total, Keeps, Wrote, at}
use dex_backend.Ledger.Cells.Writes.{OnCell, locked_write}

-- The statement's arguments name an asset and a positive amount.
pub record Reads (asset raw : Str) (a : Asset) (x : ℕ) : Type 0 where
  pub asset_read : normalize_asset asset ≡ ok a
  pub amount_read : validate_positive_amount raw ≡ ok x

-- The two checks that open a method, and the rest from the same tables.
pub Reads-bind :
    {B : Type 0} (asset raw : Str) (f : Asset → ℕ → Tx LedgerDb B) (db : LedgerDb) {y : B}
    {db' : LedgerDb}
    → (given (normalize_asset asset) >>= λ a. given (validate_positive_amount raw) >>= λ x. f a x)
        db
      ≡ ok (y, db')
    → (a : Asset) × (x : ℕ) × Reads asset raw a x × (f a x db ≡ ok (y, db'))
Reads-bind asset raw f db h =
    let (a, asset_read, k) = given-bind _ _ db h in
    let (x, amount_read, l) = given-bind _ _ db k in
    (a, x, record { asset_read = asset_read; amount_read = amount_read }, l)

-- `x` of asset `a` has come to user `u`, and nothing else has changed.
pub record Credited (u : ℕ) (a : Asset) (x : ℕ) (db db' : LedgerDb) : Type 0 where
  pub balances : (v : ℕ) (c : Asset) → balance_of db' v c ≡ balance_of db v c + at u a v c x
  pub lockeds : (v : ℕ) (c : Asset) → locked_of db' v c ≡ locked_of db v c
  pub totals : (c : Asset) → total c db' ≡ total c db + (if asset_eq a c then x else 0)
  pub keeps : Keeps db db'

-- `x` of asset `a` has left user `u`, who had it, and nothing else has changed.
pub record Debited (u : ℕ) (a : Asset) (x : ℕ) (db db' : LedgerDb) : Type 0 where
  pub covered : x ≤ balance_of db u a
  pub balances : (v : ℕ) (c : Asset) → balance_of db' v c + at u a v c x ≡ balance_of db v c
  pub lockeds : (v : ℕ) (c : Asset) → locked_of db' v c ≡ locked_of db v c
  pub totals : (c : Asset) → total c db' + (if asset_eq a c then x else 0) ≡ total c db
  pub keeps : Keeps db db'

pub credit-OnCell :
    (u : ℕ) (a : Asset) (x : ℕ)
    → OnCell u a always
        (λ r. set_balance a (r.balance a + x) r)
        (λ b l. true)
        (λ b l. b + x)
        (λ b l. l)
credit-OnCell u a x = record {
  tests = λ r. refl;
  sets_balance = λ r c. refl;
  sets_locked = λ r c. ground (arith, asset_eq_iff a c);
}

debit-OnCell :
    (u : ℕ) (a : Asset) (x : ℕ)
    → OnCell u a
        (λ r. leb x (r.balance a))
        (λ r. set_balance a (r.balance a - x) r)
        (λ b l. leb x b)
        (λ b l. b - x)
        (λ b l. l)
debit-OnCell u a x = record {
  tests = λ r. refl;
  sets_balance = λ r c. refl;
  sets_locked = λ r c. ground (arith, asset_eq_iff a c);
}

pub Wrote-Credited :
    {u : ℕ} {a : Asset} (x : ℕ) {db db' : LedgerDb}
    → Wrote u a (balance_of db u a + x) (locked_of db u a) db db'
    → Credited u a x db db'
Wrote-Credited {u} {a} x w = record {
  balances = λ v c. ground (arith, w.balances v c, ==_iff u v, asset_eq_iff a c);
  lockeds = λ v c. ground (arith, w.lockeds v c, ==_iff u v, asset_eq_iff a c);
  totals = λ c. ground (arith, w.totals c);
  keeps = w.keeps;
}

Wrote-Debited :
    {u : ℕ} {a : Asset} (x : ℕ) {db db' : LedgerDb}
    → x ≤ balance_of db u a
    → Wrote u a (balance_of db u a - x) (locked_of db u a) db db'
    → Debited u a x db db'
Wrote-Debited {u} {a} x h w = record {
  covered = h;
  balances = λ v c. ground (arith, w.balances v c, ==_iff u v, asset_eq_iff a c);
  lockeds = λ v c. ground (arith, w.lockeds v c, ==_iff u v, asset_eq_iff a c);
  totals = λ c. ground (arith, w.totals c);
  keeps = w.keeps;
}

-- A credit that succeeds has read its arguments and credited the user.
pub credit_balance_tx-Credited :
    (u : ℕ) (asset raw : Str) (db : LedgerDb) {y : Unit {0}} {db' : LedgerDb}
    → credit_balance_tx u asset raw db ≡ ok (y, db')
    → (a : Asset) × (x : ℕ) × Reads asset raw a x × Credited u a x db db'
unfolding credit_balance_tx
credit_balance_tx-Credited u asset raw db h =
    let (a, x, reads, k) = Reads-bind asset raw _ db h in
    let (_, d1, h1, k1) = bind-ok _ _ db k in
    let (n, d2, h2, k2) = bind-ok _ _ d1 k1 in
    elim (locked_write u a _ _ _ _ _ db (credit-OnCell u a x) h1 h2) [
      | inl (_, never, _) ↦ absurd (ground arith)
      | inr (_, _, w) ↦ (
        a,
        x,
        reads,
        Wrote-Credited x
            (subst (Wrote u a (balance_of db u a + x) (locked_of db u a) db) (ground arith) w),
      )
    ]

-- So has a debit, whose user had the amount.
pub debit_balance_tx-Debited :
    (u : ℕ) (asset raw : Str) (db : LedgerDb) {y : Unit {0}} {db' : LedgerDb}
    → debit_balance_tx u asset raw db ≡ ok (y, db')
    → (a : Asset) × (x : ℕ) × Reads asset raw a x × Debited u a x db db'
unfolding debit_balance_tx
debit_balance_tx-Debited u asset raw db h =
    let (a, x, reads, k) = Reads-bind asset raw _ db h in
    let (_, d1, h1, k1) = bind-ok _ _ db k in
    let (n, d2, h2, k2) = bind-ok _ _ d1 k1 in
    let (some_row, _) = check-ok _ _ d2 k2 in
    elim (locked_write u a _ _ _ _ _ db (debit-OnCell u a x) h1 h2) [
      | inl (no_row, _, _) ↦ absurd (ground arith)
      | inr (_, covered, w) ↦ (
        a,
        x,
        reads,
        Wrote-Debited x (leb→le _ _ covered)
            (subst (Wrote u a (balance_of db u a - x) (locked_of db u a) db) (ground arith) w),
      )
    ]
