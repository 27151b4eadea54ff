-- ===== src/P2p/Release/Laws.antt =====
-- A release pays the buyer and the fee wallet just what the escrow held.
use dex_backend.Base.{
  ℕ, ◌+◌, ◌≡◌, refl, ◌&&◌, ◌||◌, ◌⊎◌, inl, inr, Bool, true, false, some, ◌==◌, ==_iff, arith,
  if◌then◌else◌,
}
use dex_backend.Base.Key.{nat_key}
use dex_backend.Result.{ok}
use dex_backend.Asset.{Asset, asset_eq}
use dex_backend.Asset.Laws.{asset_eq_iff, asset_key}
use dex_backend.Table.{select, update}
use dex_backend.Table.Laws.{select-update_self, select-update_ne, sum-update}
use dex_backend.Tx.Laws.{bind-ok, query-bind, found-ok, check-bind, transact-ok}
use dex_backend.Ledger.{is_some}
use dex_backend.P2p.Schema.{
  P2pWallet, OrderStatus, payment_made, completed, cancelled, appeal, Order, P2pDb,
}
use dex_backend.P2p.{insert_wallet_entry}
use dex_backend.P2p.Release.Collect.{HasFeeWallet, collect_fees-Collected}
use dex_backend.P2p.Release.{may_release, pay_out, release_once, release_order}
use dex_backend.P2p.Holdings.{wallet_of, at_stake, fees_of, held, Set, wallet-Set, close-Closed}

-- The escrow of an order is what the buyer is credited and both fees.
abbrev pub IsBacked : Order → Type 0
IsBacked o = o.escrow ≡ o.buyer_credit + o.buyer_fee + o.seller_fee

abbrev pub is_over : OrderStatus → Bool
is_over completed = true
is_over cancelled = true
is_over _ = false

-- Nothing is in escrow once an order is over; before, the escrow is backed.
abbrev pub IsAccounted : Order → Type 0
IsAccounted o = (is_over o.status ≡ true → o.escrow ≡ 0) × (is_over o.status ≡ false → IsBacked o)

pub may_release_open :
    (admin : Bool) (s : OrderStatus) → may_release admin s ≡ true → is_over s ≡ false
may_release_open false payment_made h = refl
may_release_open true appeal h = refl
may_release_open _ _ h = ground arith

-- The order `o`, under `id`, has been released.
pub record Released (id : ℕ) (o : Order) (db db' : P2pDb) : Type 0 where
  pub wallets :
      (v : ℕ) (c : Asset)
      → wallet_of db'.wallets v c ≡ (
          let w = wallet_of db.wallets v c in
          if o.buyer_id == v && asset_eq o.asset c
          then record w { available = w.available + o.buyer_credit }
          else w)
  pub fees :
      (c : Asset)
      → fees_of db'.admin_wallets c
        ≡ fees_of db.admin_wallets c
          + (if asset_eq o.asset c then o.buyer_fee + o.seller_fee else 0)
  pub fee_rows :
      (c : Asset) → is_some (select c db'.admin_wallets) ≡ is_some (select c db.admin_wallets)
  pub order : select id db'.orders ≡ some (record o { escrow = 0; status = completed })
  pub others : (j : ℕ) → (id == j) ≡ false → select j db'.orders ≡ select j db.orders
  pub listings : db'.listings ≡ db.listings
  pub conserves : (c : Asset) → held c db' ≡ held c db

abbrev pay : Order → P2pWallet → P2pWallet
pay o w = record w { available = w.available + o.buyer_credit }

abbrev finish : Order → Order
finish o = record o { escrow = 0; status = completed }

Released-intro :
    (id : ℕ) (o : Order) (db d db' : P2pDb)
    → select id db.orders ≡ some o
    → IsBacked o
    → Set o.buyer_id o.asset (pay o) db d
    → db'.wallets ≡ d.wallets
    → ((c : Asset)
        → fees_of db'.admin_wallets c
          ≡ fees_of db.admin_wallets c
            + (if asset_eq o.asset c then o.buyer_fee + o.seller_fee else 0))
    → ((c : Asset) → is_some (select c db'.admin_wallets) ≡ is_some (select c db.admin_wallets))
    → db'.orders ≡ update id finish db.orders
    → db'.listings ≡ db.listings
    → Released id o db db'
Released-intro id o db d db' at_id backed paid wallets fees rows orders listings = record {
  wallets = λ v c. ground (arith, paid.wallets v c, ==_iff o.buyer_id v, asset_eq_iff o.asset c);
  fees = fees;
  fee_rows = rows;
  order = ground (arith, select-update_self id finish db.orders o at_id);
  others = λ j other. ground (arith, select-update_ne id j finish db.orders other);
  listings = listings;
  conserves = λ c.
      unfold held in
      ground (arith, paid.sums c, fees c, sum-update (at_stake c) id finish db.orders o at_id);
}

pay_out-Released :
    (seller id : ℕ) (admin : Bool) (o : Order) (db : P2pDb) {p : Order} {db' : P2pDb}
    → select id db.orders ≡ some o
    → IsAccounted o
    → HasFeeWallet db o.asset
    → pay_out seller id admin o db ≡ ok (p, db')
    → (may_release admin o.status ≡ true)
      × (p ≡ record o { escrow = 0; status = completed })
      × Released id o db db'
unfolding pay_out insert_wallet_entry
pay_out-Released seller id admin o db {db' = db'} at_id accounted has h =
    let (may, k0) = check-bind _ _ _ db h in
    let (_, d1, h1, k1) = bind-ok _ _ db k0 in
    let (n, d2, h2, k2) = bind-ok _ _ d1 k1 in
    let (_, d3, h3, k3) = bind-ok _ _ d2 k2 in
    let (_, d4, h4, k4) = bind-ok _ _ d3 k3 in
    let paid = wallet-Set o.buyer_id o.asset _ db h1 h2 in
    let collected = collect_fees-Collected id o d3 (ground (arith, paid.rest)) h4 in
    let closed = close-Closed id _ _ _ _ d4 k4 in
    let orders : db'.orders ≡ update id finish db.orders =
      ground (arith, paid.rest, collected.orders, closed.orders) in
    let done : Released id o db db' =
      Released-intro id o db d2 db' at_id
        (accounted.1 (may_release_open admin o.status (ground arith))) paid
        (ground (arith, collected.wallets, closed.wallets))
        (λ c. ground (arith, collected.fees c, closed.admin_wallets, paid.rest))
        (λ c. ground (arith, collected.rows c, closed.admin_wallets, paid.rest)) orders
        (ground (arith, paid.rest, collected.listings, closed.listings)) in
    (ground arith, ground (arith, closed.order, done.order), done)

release_once-cases :
    (seller id : ℕ) (admin : Bool) (o : Order) (s : OrderStatus) (db : P2pDb) {p : Order}
    {db' : P2pDb}
    → release_once seller id admin o s db ≡ ok (p, db')
    → ((s ≡ completed) × (p ≡ o) × (db' ≡ db)) ⊎ (pay_out seller id admin o db ≡ ok (p, db'))
unfolding release_once
release_once-cases seller id admin o completed db h = inl (refl, ground arith, ground arith)
release_once-cases seller id admin o _ db h = inr h

-- A release that succeeds is by the order's seller or an admin. If the order is completed already,
-- it is returned and nothing changes. Otherwise payment was marked, or for an admin an appeal was
-- open; where the escrow of an open order is the buyer's credit and both fees, and the fee wallet has
-- a row for the asset, the buyer's wallet rises by the credit and the fee wallet by both fees, the order is
-- completed with nothing in escrow, no other wallet, order or listing changes, and what the market
-- holds of every asset is the same.
pub release_order_pays :
    (seller id : ℕ) (admin : Bool) (o : Order) (db : P2pDb) {p : Order} {db' : P2pDb}
    → select id db.orders ≡ some o
    → IsAccounted o
    → HasFeeWallet db o.asset
    → release_order seller id admin db ≡ (ok p, db')
    → (admin || o.seller_id == seller ≡ true)
      × (((o.status ≡ completed) × (p ≡ o) × (db' ≡ db))
          ⊎ ((may_release admin o.status ≡ true)
              × (p ≡ record o { escrow = 0; status = completed })
              × Released id o db db'))
unfolding release_order
release_order_pays seller id admin o db {p} {db'} at_id accounted has h =
    let (q, d, h0, k0) = bind-ok _ _ db (transact-ok _ db h) in
    let (q_found, same) = found-ok _ _ db (query-bind _ _ db h0) in
    let q_is : q ≡ o = ground arith in
    let (by, k1) = check-bind _ _ _ d k0 in
    let run : release_once seller id admin o o.status db ≡ ok (p, db') =
      ground (arith, q_is, same) in
    (
      ground arith,
      elim (release_once-cases seller id admin o o.status db run) [
        | inl already ↦ inl already
        | inr pays ↦ inr (pay_out-Released seller id admin o db at_id accounted has pays)
      ],
    )
