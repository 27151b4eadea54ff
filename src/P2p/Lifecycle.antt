-- ===== src/P2p/Lifecycle.antt =====
-- The life of an order: where one call takes it (internal/repo/p2p.go, internal/repo/p2p_workflow.go).
pub mod Turns
pub mod Runs
use dex_backend.Base.{ℕ, ◌≡◌, refl, ◌⊎◌, Bool, true, false, some, ◌==◌, arith, if◌then◌else◌}
use dex_backend.Base.Key.{nat_key}
use dex_backend.Text.Bytes.{Str}
use dex_backend.Asset.{Asset}
use dex_backend.Asset.Laws.{asset_key}
use dex_backend.Table.{select, update, sum}
use dex_backend.Table.Laws.{select-update_self, select-update_ne, sum-update}
use dex_backend.Ledger.{is_some}
use dex_backend.P2p.Schema.{
  OrderStatus, pending_payment, payment_made, completed, cancelled, appeal, Order, P2pDb,
}
use dex_backend.P2p.Release.Laws.{is_over, IsAccounted}
use dex_backend.P2p.Release.Collect.{HasFeeWallet}
use dex_backend.P2p.Holdings.{at_stake, held}

-- The diagram of an order's status.
pub data Turn : OrderStatus → OrderStatus → Type 0 where
  pays : Turn pending_payment payment_made
  lapses : Turn pending_payment cancelled
  releases : Turn payment_made completed
  disputes : Turn payment_made appeal
  settles : Turn appeal payment_made
  rules_release : Turn appeal completed
  rules_refund : Turn appeal cancelled

-- The same order, one step further; its escrow is emptied at the end of its life and not before.
pub record Advanced (o o' : Order) : Type 0 where
  pub listing_id : o'.listing_id ≡ o.listing_id
  pub seller_id : o'.seller_id ≡ o.seller_id
  pub buyer_id : o'.buyer_id ≡ o.buyer_id
  pub asset : o'.asset ≡ o.asset
  pub amount : o'.amount ≡ o.amount
  pub buyer_fee : o'.buyer_fee ≡ o.buyer_fee
  pub seller_fee : o'.seller_fee ≡ o.seller_fee
  pub buyer_credit : o'.buyer_credit ≡ o.buyer_credit
  pub escrow : o'.escrow ≡ (if is_over o'.status then 0 else o.escrow)
  pub turn : Turn o.status o'.status

-- One order has advanced, no other has changed, and the market holds as much as before.
pub record Turned (id : ℕ) (db db' : P2pDb) : Type 0 where
  pub before : Order
  pub after : Order
  pub was : select id db.orders ≡ some before
  pub is : select id db'.orders ≡ some after
  pub others : (j : ℕ) → (id == j) ≡ false → select j db'.orders ≡ select j db.orders
  pub advanced : Advanced before after
  pub conserves : (c : Asset) → held c db' ≡ held c db
  pub fee_rows :
      (c : Asset) → is_some (select c db'.admin_wallets) ≡ is_some (select c db.admin_wallets)

-- What a call about an order does: nothing, or one step.
abbrev pub Outcome : ℕ → P2pDb → P2pDb → Type 0
Outcome id db db' = (db' ≡ db) ⊎ Turned id db db'

-- Every order's escrow is accounted for, and its fees have a wallet to go to.
abbrev pub IsSound : P2pDb → Type 0
IsSound db =
    (id : ℕ) (o : Order) → select id db.orders ≡ some o → IsAccounted o × HasFeeWallet db o.asset

-- A call that sets one order's row, and moves nothing, has turned it.
pub set-Turned :
    (id : ℕ) (set : Order → Order) (o : Order) (db db' : P2pDb)
    → select id db.orders ≡ some o
    → Advanced o (set o)
    → is_over (set o).status ≡ false
    → db'.wallets ≡ db.wallets
    → db'.admin_wallets ≡ db.admin_wallets
    → db'.orders ≡ update id set db.orders
    → Turned id db db'
set-Turned id set o db db' at_id advanced goes_on wallets fees orders = record {
  before = o;
  after = set o;
  was = at_id;
  is = ground (arith, select-update_self id set db.orders o at_id);
  others = λ j other. ground (arith, select-update_ne id j set db.orders other);
  advanced = advanced;
  conserves = λ c.
      unfold held in
      ground
        (arith, sum-update (at_stake c) id set db.orders o at_id, advanced.asset, advanced.escrow);
  fee_rows = λ c. ground arith;
}

-- What follows a turn without touching wallets, fees or orders belongs to it.
pub Turned-same :
    (id : ℕ) {d e f : P2pDb}
    → Turned id d e
    → f.wallets ≡ e.wallets
    → f.admin_wallets ≡ e.admin_wallets
    → f.orders ≡ e.orders
    → Turned id d f
Turned-same id {e = e} {f = f} t wallets fees orders = record {
  before = t.before;
  after = t.after;
  was = t.was;
  is = ground (arith, t.is);
  others = λ j other. ground (arith, t.others j other);
  advanced = t.advanced;
  conserves = λ c. ground (arith, t.conserves c, held_same c e f wallets fees orders);
  fee_rows = λ c. ground (arith, t.fee_rows c);
}
  where
    held_same :
        (c : Asset) (e f : P2pDb)
        → f.wallets ≡ e.wallets
        → f.admin_wallets ≡ e.admin_wallets
        → f.orders ≡ e.orders
        → held c f ≡ held c e
    held_same c e f wallets fees orders = unfold held in ground arith
