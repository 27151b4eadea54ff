-- ===== src/P2p/Orders/Laws.antt =====
-- A cancelled or expired order goes back to the seller.
use dex_backend.Base.{
  ℕ, ◌≡◌, ◌≢◌, refl, ◌||◌, ◌⊎◌, inl, inr, Bool, true, some, ◌==◌, arith, if◌then◌else◌,
}
use dex_backend.Base.Key.{nat_key}
use dex_backend.Result.{ok}
use dex_backend.Text.Bytes.{Str}
use dex_backend.Table.{select}
use dex_backend.Tx.Laws.{bind-ok, query-bind, found-ok, check-bind, transact-ok}
use dex_backend.P2p.Schema.{OrderStatus, pending_payment, cancelled, Listing, Order, P2pDb}
use dex_backend.P2p.Refund.{refund_tx}
use dex_backend.P2p.Refund.Laws.{void, Refunded, refund_tx-Refunded}
use dex_backend.P2p.Orders.{cancel_tx, cancel_by_status, cancel_order}

-- The order `o` of `id` has been cancelled, and its escrow given back.
abbrev pub GivenUp : ℕ → Order → Str → ℕ → Order → P2pDb → P2pDb → Type 0
GivenUp id o reason by p db db' =
    (l : Listing) × (select o.listing_id db.listings ≡ some l)
    × (o.escrow ≢ 0)
    × (p ≡ void cancelled reason (some by) o)
    × Refunded id o l cancelled reason (some by) db db'

pub cancel_by_status-cases :
    (id : ℕ) (reason : Str) (by : ℕ) (o : Order) (s : OrderStatus) (db : P2pDb) {p : Order}
    {db' : P2pDb}
    → cancel_by_status id reason by o s db ≡ ok (p, db')
    → ((s ≡ cancelled) × (p ≡ o) × (db' ≡ db))
      ⊎ ((s ≡ pending_payment) × (refund_tx id o cancelled reason (some by) db ≡ ok (p, db')))
unfolding cancel_by_status
cancel_by_status-cases id reason by o cancelled db h = inl (refl, ground arith, ground arith)
cancel_by_status-cases id reason by o pending_payment db h = inr (refl, h)
cancel_by_status-cases id reason by o _ db h = cc

-- A cancellation that succeeds is by the order's buyer or by the system. If the order is cancelled
-- already, it is returned and nothing changes. Otherwise payment was pending, and the whole escrow,
-- which was something, goes back: to the seller's reserved amount if the ad is a sell ad funded from
-- the P2P wallet and not withdrawn, or else to the seller's available amount. An ad that is not
-- withdrawn is open again with the order's amount, unless it is a sell ad funded from the main
-- wallet; any other ad is as it was. The order is cancelled with the reason, no other wallet, order
-- or fee changes, and what the market holds of every asset is the same.
pub cancel_order_refunds :
    (actor id : ℕ) (system : Bool) (reason : Str) (o : Order) (db : P2pDb) {p : Order} {db' : P2pDb}
    → select id db.orders ≡ some o
    → cancel_order actor id system reason db ≡ (ok p, db')
    → (system || o.buyer_id == actor ≡ true)
      × (((o.status ≡ cancelled) × (p ≡ o) × (db' ≡ db))
          ⊎ ((o.status ≡ pending_payment)
              × GivenUp id o reason (if system then o.buyer_id else actor) p db db'))
unfolding cancel_order cancel_tx
cancel_order_refunds actor id system reason o db {p} {db'} at_id h =
    let (q, d, h0, k0) = bind-ok _ _ db (transact-ok _ db h) in
    let (q_found, same) = found-ok _ _ db (query-bind _ _ db h0) in
    let q_is : q ≡ o = ground arith in
    let (may, k1) = check-bind _ _ _ d k0 in
    let by = if system then o.buyer_id else actor in
    let run : cancel_by_status id reason by o o.status db ≡ ok (p, db') =
      ground (arith, q_is, same) in
    (
      ground arith,
      elim (cancel_by_status-cases id reason by o o.status db run) [
        | inl already ↦ inl already
        | inr (waits, refunds) ↦
            inr (waits, refund_tx-Refunded id o cancelled reason (some by) db at_id refunds)
      ],
    )
