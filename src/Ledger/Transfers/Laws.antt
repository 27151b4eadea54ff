-- ===== src/Ledger/Transfers/Laws.antt =====
-- What the exported transfers do to all balances.
use mathlib.Core.Path.{subst}
use dex_backend.Base.{ℕ, ◌+◌, ◌≤◌, ◌≡◌, ◌≢◌, ◌∙◌, arith, if◌then◌else◌}
use dex_backend.Result.{ok}
use dex_backend.Text.Bytes.{Str}
use dex_backend.Asset.{Asset, asset_eq}
use dex_backend.Schema.{LedgerDb}
use dex_backend.Tx.Laws.{bind-ok, check-ok, check-bind, transact-ok}
use dex_backend.Ledger.{lock_user}
use dex_backend.Ledger.Cells.{balance_of, locked_of, total, Keeps, Same, at, lock_balances_tx-Same}
use dex_backend.Ledger.Transfers.{transfer_balance, transfer_balance_tx, swap_balance}
use dex_backend.Ledger.Transfers.Steps.{
  Reads, Credited, Debited, credit_balance_tx-Credited, debit_balance_tx-Debited,
}

pub lock_user-eq :
    (u : ℕ) (db : LedgerDb) {x : Unit {0}} {db' : LedgerDb}
    → lock_user u db ≡ ok (x, db')
    → db' ≡ db
unfolding lock_user
lock_user-eq u db h = (check-ok _ _ db h).1

-- `x` of asset `a` went from the sender, who had it, to the recipient, and nothing else changed.
pub record Transferred (s r : ℕ) (a : Asset) (x : ℕ) (db db' : LedgerDb) : Type 0 where
  pub covered : x ≤ balance_of db s a
  pub balances :
      (v : ℕ) (c : Asset) → balance_of db' v c + at s a v c x ≡ balance_of db v c + at r a v c x
  pub lockeds : (v : ℕ) (c : Asset) → locked_of db' v c ≡ locked_of db v c
  pub totals : (c : Asset) → total c db' ≡ total c db
  pub keeps : Keeps db db'

Transferred-intro :
    (s r : ℕ) {a b : Asset} {x y : ℕ} {d e f : LedgerDb} (asset raw : Str) {g : LedgerDb}
    → Same d e
    → Reads asset raw a x
    → Reads asset raw b y
    → Debited s a x e f
    → Credited r b y f g
    → Transferred s r a x d g
Transferred-intro s r {a} {b} {x} {y} asset raw same first second out_ in_ =
    let one_asset : b ≡ a = ground (arith, first, second) in
    let one_amount : y ≡ x = ground (arith, first, second) in
    record {
      covered = ground (arith, out_.covered, same.balances s a);
      balances = λ v c. ground (arith, out_.balances v c, in_.balances v c, same.balances v c);
      lockeds = λ v c. in_.lockeds v c ∙ out_.lockeds v c ∙ same.lockeds v c;
      totals = λ c. ground (arith, out_.totals c, in_.totals c, same.totals c);
      keeps = ground (arith, out_.keeps, in_.keeps, same.keeps);
    }

-- A transfer that succeeds is between two users, its asset and its positive amount were read from
-- the arguments, the sender had the amount, and it moved from the sender to the recipient: no
-- other balance, no lock and no ledger entry changed, and the total of every asset is the same.
pub transfer_balance_moves :
    (s r : ℕ) (asset raw : Str) (db : LedgerDb) {db' : LedgerDb}
    → transfer_balance s r asset raw db ≡ (ok tt, db')
    → (s ≢ r) × (a : Asset) × (x : ℕ) × Reads asset raw a x × Transferred s r a x db db'
unfolding transfer_balance
transfer_balance_moves s r asset raw db h =
    let (differ, k) = check-bind _ _ _ db (transact-ok (transfer_balance_tx s r asset raw) db h) in
    let (_, d1, h1, k1) = bind-ok _ _ db k in
    let (_, d2, h2, k2) = bind-ok _ _ d1 k1 in
    let (_, d3, h3, k3) = bind-ok _ _ d2 k2 in
    let (_, d4, h4, k4) = bind-ok _ _ d3 k3 in
    let (a, x, reads, out_) = debit_balance_tx-Debited s asset raw d3 h4 in
    let (b, y, again, in_) = credit_balance_tx-Credited r asset raw d4 k4 in
    let same : Same db d3 =
      subst (λ d. Same d d3) (lock_user-eq _ d1 h2 ∙ lock_user-eq _ db h1)
        (lock_balances_tx-Same _ d2 h3) in
    (ground (arith, differ), a, x, reads, Transferred-intro s r asset raw same reads again out_ in_)

-- `x` of asset `a` was exchanged for `y` of asset `b`, in the balances of user `u`.
pub record Swapped (u : ℕ) (a b : Asset) (x y : ℕ) (db db' : LedgerDb) : Type 0 where
  pub covered : x ≤ balance_of db u a
  pub balances :
      (v : ℕ) (c : Asset) → balance_of db' v c + at u a v c x ≡ balance_of db v c + at u b v c y
  pub lockeds : (v : ℕ) (c : Asset) → locked_of db' v c ≡ locked_of db v c
  pub totals :
      (c : Asset)
      → total c db' + (if asset_eq a c then x else 0) ≡ total c db + (if asset_eq b c then y else 0)
  pub keeps : Keeps db db'

-- A swap that succeeds has read both assets and both positive amounts. The user had the source
-- amount; it is debited and the destination amount credited, to the same user, and no other
-- balance, no lock and no ledger entry changes.
pub swap_balance_exchanges :
    (u : ℕ) (source source_raw destination destination_raw : Str) (db : LedgerDb) {db' : LedgerDb}
    → swap_balance u source source_raw destination destination_raw db ≡ (ok tt, db')
    → (a : Asset) × (x : ℕ) × (b : Asset) × (y : ℕ) × Reads source source_raw a x
      × Reads destination destination_raw b y
      × Swapped u a b x y db db'
unfolding swap_balance
swap_balance_exchanges u source source_raw destination destination_raw db h =
    let (_, d, h0, k0) = bind-ok _ _ db (transact-ok _ db h) in
    let (a, x, from_, out_) = debit_balance_tx-Debited u source source_raw db h0 in
    let (b, y, to_, in_) = credit_balance_tx-Credited u destination destination_raw d k0 in
    (
      a,
      x,
      b,
      y,
      from_,
      to_,
      record {
        covered = out_.covered;
        balances = λ v c. ground (arith, out_.balances v c, in_.balances v c);
        lockeds = λ v c. in_.lockeds v c ∙ out_.lockeds v c;
        totals = λ c. ground (arith, out_.totals c, in_.totals c);
        keeps = ground (arith, out_.keeps, in_.keeps);
      },
    )
