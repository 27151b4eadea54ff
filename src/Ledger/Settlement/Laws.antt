-- ===== src/Ledger/Settlement/Laws.antt =====
-- What a settled fill does to the balances and the reservations of its two sides.
use dex_backend.Base.{
  ℕ, ◌+◌, ◌-◌, ◌≤◌, ◌≡◌, ◌≢◌, refl, ◌&&◌, leb, arith, inl, inr, leb→le, ==_iff, if◌then◌else◌,
}
use dex_backend.Base.Key.{nat_key}
use dex_backend.Result.{ok, Err}
use dex_backend.Text.Bytes.{Str}
use dex_backend.Asset.{Asset, asset_eq}
use dex_backend.Asset.Laws.{asset_eq_iff}
use dex_backend.Schema.{LedgerDb, set_balance, set_locked}
use dex_backend.Tx.Laws.{bind-ok, given-bind, check-ok, check-bind, transact-ok}
use dex_backend.Ledger.{update_balances}
use dex_backend.Ledger.Cells.{balance_of, locked_of, total, Keeps, Wrote, at, lock_balances_tx-Same}
use dex_backend.Ledger.Cells.Writes.{OnCell, update_write, locked_write}
use dex_backend.Ledger.Rows.{HasRow, update_balances-HasRow, lock_balances_tx-HasRow}
use dex_backend.Ledger.Transfers.Steps.{Reads, Reads-bind, Credited, Wrote-Credited, credit-OnCell}
use dex_backend.Ledger.Settlement.{
  settle_locked_debit, settle_spot_trade, settle_legs, consume, receive,
}

-- `x` of asset `a` has left both the balance and the reservation of user `u`, who had it in both.
pub record Consumed (u : ℕ) (a : Asset) (x : ℕ) (db db' : LedgerDb) : Type 0 where
  pub covered : x ≤ balance_of db u a
  pub reserved : x ≤ locked_of db u a
  pub balances : (v : ℕ) (c : Asset) → balance_of db' v c + at u a v c x ≡ balance_of db v c
  pub lockeds : (v : ℕ) (c : Asset) → locked_of db' v c + at u a v c x ≡ locked_of db v c
  pub totals : (c : Asset) → total c db' + (if asset_eq a c then x else 0) ≡ total c db
  pub keeps : Keeps db db'

consume-OnCell :
    (u : ℕ) (a : Asset) (x : ℕ)
    → OnCell u a
        (λ r. leb x (r.balance a) && leb x (r.locked a))
        (λ r. set_locked a (r.locked a - x) (set_balance a (r.balance a - x) r))
        (λ b l. leb x b && leb x l)
        (λ b l. b - x)
        (λ b l. l - x)
consume-OnCell u a x = record {
  tests = λ r. refl;
  sets_balance = λ r c. refl;
  sets_locked = λ r c. refl;
}

Wrote-Consumed :
    {u : ℕ} {a : Asset} (x : ℕ) {db db' : LedgerDb}
    → x ≤ balance_of db u a
    → x ≤ locked_of db u a
    → Wrote u a (balance_of db u a - x) (locked_of db u a - x) db db'
    → Consumed u a x db db'
Wrote-Consumed {u} {a} x h k w = record {
  covered = h;
  reserved = k;
  balances = λ v c. ground (arith, w.balances v c, ==_iff u v, asset_eq_iff a c);
  lockeds = λ v c. ground (arith, w.lockeds v c, ==_iff u v, asset_eq_iff a c);
  totals = λ c. ground (arith, w.totals c);
  keeps = w.keeps;
}

consume-Consumed :
    (u : ℕ) (a : Asset) (x : ℕ) (e : Err) (db : LedgerDb) {y : Unit {0}} {db' : LedgerDb}
    → consume u a x e db ≡ ok (y, db')
    → Consumed u a x db db' × ((v : ℕ) → HasRow db v → HasRow db' v)
unfolding consume
consume-Consumed u a x e db {db' = db'} h =
    let (n, d, h0, k0) = bind-ok _ _ db h in
    let (one_row, d_is) = check-ok _ _ d k0 in
    let keeps_rows : (v : ℕ) → HasRow db v → HasRow db' v =
      λ v row. rw d_is (update_balances-HasRow u v _ _ db h0 row) in
    elim (update_write u a _ _ _ _ _ db (consume-OnCell u a x) h0) [
      | inl (no_row, _) ↦ absurd (ground arith)
      | inr (_, both, w) ↦ (rw d_is (Wrote-Consumed x (ground arith) (ground arith) w), keeps_rows)
    ]

receive-Credited :
    (u : ℕ) (a : Asset) (x : ℕ) (db : LedgerDb) {y : Unit {0}} {db' : LedgerDb}
    → HasRow db u
    → receive u a x db ≡ ok (y, db')
    → Credited u a x db db' × ((v : ℕ) → HasRow db v → HasRow db' v)
unfolding receive
receive-Credited u a x db {db' = db'} row h =
    let (n, d, h0, k0) = bind-ok _ _ db h in
    let d_is : db' ≡ d = ground arith in
    rw d_is (
      elim (update_write u a _ _ _ _ _ db (credit-OnCell u a x) h0) [
        | inl (no_row, _) ↦ absurd (unfold update_balances in ground arith)
        | inr (_, _, w) ↦ Wrote-Credited x w
      ],
      λ v had. update_balances-HasRow u v _ _ db h0 had,
    )

-- A settled spot trade: the buyer pays `buyer_quote` out of what was reserved and receives `qty` of
-- the base; the seller pays `qty` out of what was reserved and receives `seller_quote`.
pub record Settled (buyer seller : ℕ) (b q : Asset) (qty buyer_quote seller_quote : ℕ)
    (db db' : LedgerDb) : Type 0 where
  pub balances :
      (v : ℕ) (c : Asset)
      → balance_of db' v c + at buyer q v c buyer_quote + at seller b v c qty
        ≡ balance_of db v c + at buyer b v c qty + at seller q v c seller_quote
  pub lockeds :
      (v : ℕ) (c : Asset)
      → locked_of db' v c + at buyer q v c buyer_quote + at seller b v c qty ≡ locked_of db v c
  pub totals :
      (c : Asset)
      → total c db' + (if asset_eq q c then buyer_quote else 0)
        ≡ total c db + (if asset_eq q c then seller_quote else 0)
  pub keeps : Keeps db db'

settle_legs-Settled :
    (buyer seller : ℕ) (b q : Asset) (qty buyer_quote seller_quote : ℕ) (db : LedgerDb)
    {y : Unit {0}} {db' : LedgerDb}
    → settle_legs buyer seller b q qty buyer_quote seller_quote db ≡ ok (y, db')
    → Settled buyer seller b q qty buyer_quote seller_quote db db'
unfolding settle_legs
settle_legs-Settled buyer seller b q qty buyer_quote seller_quote db h =
    let (_, d0, h0, k0) = bind-ok _ _ db h in
    let (_, d1, h1, k1) = bind-ok _ _ d0 k0 in
    let (_, d2, h2, k2) = bind-ok _ _ d1 k1 in
    let (_, d3, h3, k3) = bind-ok _ _ d2 k2 in
    let same = lock_balances_tx-Same _ db h0 in
    let (buyer_row, seller_row) = lock_balances_tx-HasRow buyer seller db h0 in
    let (paid, rows1) = consume-Consumed buyer q buyer_quote _ d0 h1 in
    let (sold, rows2) = consume-Consumed seller b qty _ d1 h2 in
    let (got, rows3) = receive-Credited buyer b qty d2 (rows2 buyer (rows1 buyer buyer_row)) h3 in
    let (earned, _) =
      receive-Credited seller q seller_quote d3
        (rows3 seller (rows2 seller (rows1 seller seller_row))) k3 in
    record {
      balances = λ v c. omega (
        arith,
        same.balances v c,
        paid.balances v c,
        sold.balances v c,
        got.balances v c,
        earned.balances v c,
      );
      lockeds = λ v c. omega (
        arith,
        same.lockeds v c,
        paid.lockeds v c,
        sold.lockeds v c,
        got.lockeds v c,
        earned.lockeds v c,
      );
      totals = λ c.
          omega (arith, same.totals c, paid.totals c, sold.totals c, got.totals c, earned.totals c);
      keeps = ground (arith, same.keeps, paid.keeps, sold.keeps, got.keeps, earned.keeps);
    }

-- A spot trade that is settled is between two users, its assets and positive amounts were read from
-- the arguments, and both legs are complete: each side's payment has left its balance and its
-- reservation, and each side has received; no other balance or reservation has changed. The
-- total of every asset but the quote is conserved; the quote's changes by what the buyer pays less
-- what the seller receives.
pub settle_spot_trade_settles :
    (buyer seller : ℕ) (base quote qty_raw buyer_raw seller_raw : Str) (db : LedgerDb)
    {db' : LedgerDb}
    → settle_spot_trade buyer seller base quote qty_raw buyer_raw seller_raw db ≡ (ok tt, db')
    → (buyer ≢ seller)
      × (b : Asset) × (q : Asset) × (qty : ℕ) × (buyer_quote : ℕ) × (seller_quote : ℕ) × Reads base
          qty_raw b qty
      × Reads quote buyer_raw q buyer_quote
      × Reads quote seller_raw q seller_quote
      × Settled buyer seller b q qty buyer_quote seller_quote db db'
unfolding settle_spot_trade
settle_spot_trade_settles buyer seller base quote qty_raw buyer_raw seller_raw db h =
    let (differ, k) = check-bind _ _ _ db (transact-ok _ db h) in
    let (qty, qty_read, k1) = given-bind _ _ db k in
    let (buyer_quote, buyer_read, k2) = given-bind _ _ db k1 in
    let (seller_quote, seller_read, k3) = given-bind _ _ db k2 in
    let (b, base_read, k4) = given-bind _ _ db k3 in
    let (q, quote_read, k5) = given-bind _ _ db k4 in
    (
      ground (arith, differ),
      b,
      q,
      qty,
      buyer_quote,
      seller_quote,
      record { asset_read = base_read; amount_read = qty_read },
      record { asset_read = quote_read; amount_read = buyer_read },
      record { asset_read = quote_read; amount_read = seller_read },
      settle_legs-Settled buyer seller b q qty buyer_quote seller_quote db k5,
    )

settle-OnCell :
    (u : ℕ) (a : Asset) (x : ℕ)
    → OnCell u a
        (λ r. leb x (r.balance a))
        (λ r. set_locked a (r.locked a - x) (set_balance a (r.balance a - x) r))
        (λ b l. leb x b)
        (λ b l. b - x)
        (λ b l. l - x)
settle-OnCell u a x = record {
  tests = λ r. refl;
  sets_balance = λ r c. refl;
  sets_locked = λ r c. refl;
}

-- A locked debit that is settled takes the amount, which the balance covered, from the balance,
-- and from the reservation as far as that goes; nothing else has changed.
pub settle_locked_debit_settles :
    (u : ℕ) (asset raw : Str) (db : LedgerDb) {db' : LedgerDb}
    → settle_locked_debit u asset raw db ≡ (ok tt, db')
    → (a : Asset) × (x : ℕ) × Reads asset raw a x
      × (x ≤ balance_of db u a)
      × Wrote u a (balance_of db u a - x) (locked_of db u a - x) db db'
unfolding settle_locked_debit
settle_locked_debit_settles u asset raw db {db'} h =
    let (a, x, reads, k) = Reads-bind asset raw _ db (transact-ok _ db h) in
    let (_, d, h1, k1) = bind-ok _ _ db k in
    let (n, e, h2, k2) = bind-ok _ _ d k1 in
    let (some_row, e_is) = check-ok _ _ e k2 in
    elim (locked_write u a _ _ _ _ _ db (settle-OnCell u a x) h1 h2) [
      | inl (no_row, _, _) ↦ absurd (ground arith)
      | inr (_, covered, w) ↦ (a, x, reads, leb→le _ _ covered, rw e_is w)
    ]
