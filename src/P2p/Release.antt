-- ===== src/P2p/Release.antt =====
-- `releaseOrder` (internal/repo/p2p.go): the escrow of an order goes to its buyer, and the fees to
-- the fee wallet.
pub mod Collect
pub mod Laws
use dex_backend.Base.{
  ℕ, ◌+◌, not, ◌&&◌, ◌||◌, ◌++◌, Bool, true, false, Option, none, some, List, [], ◌∷◌, ltb, ◌==◌,
  if◌then◌else◌,
}
use dex_backend.Base.Key.{nat_key}
use dex_backend.Result.{Result, ok, err, Err}
use dex_backend.Text.Bytes.{Str, bytes}
use dex_backend.Asset.{Asset, asset_eq, biusd}
use dex_backend.Asset.Laws.{asset_key}
use dex_backend.Table.{select, update}
use dex_backend.Tx.{Tx, ◌>>=◌, ◌>>◌, pure, query, found, check, fail, transact}
use dex_backend.P2p.Schema.{
  P2pWallet, Side, buy, sell, FundingSource, p2p_wallet, ListingStatus, active, withdrawn, Listing,
  OrderStatus, pending_payment, payment_made, completed, cancelled, appeal, Order, EntryKind,
  order_to_buyer, order_refund, WalletEntry, AdminEntry, EventKind, order_released, closed,
  OrderEvent, P2pDb,
}
use dex_backend.P2p.{
  find_order, lock_wallet, update_wallets, any_wallet, update_listing, update_order,
  insert_wallet_entry, insert_event, insert_message,
}

-- UPDATE p2p_admin_wallet_balances SET available_raw = available_raw + $2 WHERE asset = $1
unfoldable pub credit_admin : Asset → ℕ → Tx P2pDb (Unit {0})
credit_admin a x db = ok (tt, record db { admin_wallets = update a (λ f. f + x) db.admin_wallets })

has_admin_entry : ℕ → List AdminEntry → Bool
has_admin_entry id [] = false
has_admin_entry id (e ∷ es) = e.order_id == id || has_admin_entry id es

-- INSERT INTO p2p_admin_wallet_entries, with the constraints on its asset and its order.
unfoldable pub insert_admin_entry : AdminEntry → Tx P2pDb (Unit {0})
unfolding has_admin_entry
insert_admin_entry e = do
  taken ← query (λ db. has_admin_entry e.order_id db.admin_entries)
  check (not taken && asset_eq e.asset biusd) Err.violates
  λ db. ok (tt, record db { admin_entries = e ∷ db.admin_entries })

unfoldable pub credit_fees : ℕ → Order → ℕ → Tx P2pDb (Unit {0})
unfolding credit_admin insert_admin_entry
credit_fees id o fees = do
  credit_admin o.asset fees
  insert_admin_entry (record {
    order_id = id;
    asset = o.asset;
    buyer_fee = o.buyer_fee;
    seller_fee = o.seller_fee;
    amount = fees;
  })

-- Both fees go to the fee wallet, unless they are nothing.
unfoldable pub collect_fees : ℕ → Order → Tx P2pDb (Unit {0})
unfolding credit_fees
collect_fees id o =
    if ltb 0 (o.buyer_fee + o.seller_fee)
    then credit_fees id o (o.buyer_fee + o.seller_fee)
    else pure tt

-- Who may release, and from which status: the seller once payment is marked, an admin in an appeal.
abbrev pub may_release : Bool → OrderStatus → Bool
may_release false payment_made = true
may_release true appeal = true
may_release _ _ = false

unfoldable pub pay_out : ℕ → ℕ → Bool → Order → Tx P2pDb Order
unfolding collect_fees
pay_out seller id admin o = do
  check (may_release admin o.status && not (o.escrow == 0)) Err.invalid_state
  lock_wallet o.buyer_id o.asset
  n ←
      update_wallets o.buyer_id o.asset any_wallet
        (λ w. record w { available = w.available + o.buyer_credit })
  insert_wallet_entry (record {
    user_id = o.buyer_id;
    listing_id = some o.listing_id;
    order_id = some id;
    kind = order_to_buyer;
    asset = o.asset;
    amount = o.buyer_credit;
    idempotency_key = none;
  })
  collect_fees id o
  update_order id (λ p. record p { escrow = 0; status = completed })
  insert_event (record {
    order_id = id;
    actor_id = if admin then none else some seller;
    kind = order_released admin;
  })
  insert_message id
      (bytes "BIUSD was released to the buyer and fees were credited to the admin P2P wallet.")
  find_order id Err.no_rows

-- An order that is completed already is returned as it is.
unfoldable pub release_once : ℕ → ℕ → Bool → Order → OrderStatus → Tx P2pDb Order
unfolding pay_out
release_once seller id admin o completed = pure o
release_once seller id admin o _ = pay_out seller id admin o

unfoldable pub release_order : ℕ → ℕ → Bool → P2pDb → Result Order × P2pDb
unfolding release_once
release_order seller id admin = transact do
  o ← find_order id Err.order_not_found
  check (admin || o.seller_id == seller) Err.forbidden
  release_once seller id admin o o.status
