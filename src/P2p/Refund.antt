-- ===== src/P2p/Refund.antt =====
-- `refundTx` (internal/repo/p2p.go): the escrow of an order goes back to its seller.
pub mod Laws
use dex_backend.Base.{
  ℕ, ◌+◌, not, ◌&&◌, ◌||◌, ◌++◌, Bool, true, false, Option, none, some, List, [], ◌∷◌, ltb, ◌==◌,
  if◌then◌else◌,
}
use dex_backend.Base.Key.{nat_key}
use dex_backend.Result.{Result, ok, err, Err}
use dex_backend.Text.Bytes.{Str, bytes}
use dex_backend.Asset.{Asset, asset_eq, biusd}
use dex_backend.Asset.Laws.{asset_key}
use dex_backend.Table.{select, update}
use dex_backend.Tx.{Tx, ◌>>=◌, ◌>>◌, pure, query, found, check, fail, transact}
use dex_backend.P2p.Schema.{
  P2pWallet, Side, buy, sell, FundingSource, p2p_wallet, ListingStatus, active, withdrawn, Listing,
  OrderStatus, pending_payment, payment_made, completed, cancelled, appeal, Order, EntryKind,
  order_to_buyer, order_refund, WalletEntry, AdminEntry, EventKind, order_released, closed,
  OrderEvent, P2pDb,
}
use dex_backend.P2p.{
  find_order, lock_wallet, update_wallets, any_wallet, update_listing, update_order,
  insert_wallet_entry, insert_event, insert_message,
}

abbrev pub status_name : OrderStatus → Str
status_name pending_payment = bytes "pending_payment"
status_name payment_made = bytes "payment_made"
status_name completed = bytes "completed"
status_name cancelled = bytes "cancelled"
status_name appeal = bytes "appeal"

abbrev pub is_sell : Side → Bool
is_sell sell = true
is_sell buy = false

abbrev pub is_p2p_wallet : FundingSource → Bool
is_p2p_wallet p2p_wallet = true
is_p2p_wallet _ = false

abbrev pub is_withdrawn : ListingStatus → Bool
is_withdrawn withdrawn = true
is_withdrawn _ = false

-- The ad is open again, with the order's amount.
unfoldable pub reopen : ℕ → ℕ → Tx P2pDb (Unit {0})
reopen id x = update_listing id (λ l. record l { remaining = l.remaining + x; status = active })

unfoldable pub return_to_ad : Order → Tx P2pDb (Unit {0})
unfolding reopen
return_to_ad o = do
  n ←
      update_wallets o.seller_id o.asset any_wallet
        (λ w. record w { reserved = w.reserved + o.escrow })
  reopen o.listing_id o.amount

unfoldable pub return_to_seller : Order → Listing → Tx P2pDb (Unit {0})
unfolding reopen
return_to_seller o l = do
  n ←
      update_wallets o.seller_id o.asset any_wallet
        (λ w. record w { available = w.available + o.escrow })
  if not (is_sell l.side) && not (is_withdrawn l.status)
      then reopen o.listing_id o.amount
      else pure tt

-- Where the escrow goes: back into the reservation of an ad that is still up, else to the seller.
unfoldable pub give_back : Order → Listing → Tx P2pDb (Unit {0})
unfolding return_to_ad return_to_seller
give_back o l =
    if is_sell l.side && is_p2p_wallet l.funding_source && not (is_withdrawn l.status)
    then return_to_ad o
    else return_to_seller o l

-- `refundTx`
unfoldable pub refund_tx : ℕ → Order → OrderStatus → Str → Option ℕ → Tx P2pDb Order
unfolding give_back
refund_tx id o final reason cancelled_by = do
  check (not (o.escrow == 0)) Err.invalid_state
  row ← query (λ db. select o.listing_id db.listings)
  l ← found row Err.no_rows
  lock_wallet o.seller_id o.asset
  give_back o l
  insert_wallet_entry (record {
    user_id = o.seller_id;
    listing_id = some o.listing_id;
    order_id = some id;
    kind = order_refund;
    asset = o.asset;
    amount = o.escrow;
    idempotency_key = none;
  })
  update_order id (λ p. record p {
    escrow = 0;
    status = final;
    cancellation_reason = some reason;
    cancelled_by = cancelled_by;
  })
  insert_event (record { order_id = id; actor_id = cancelled_by; kind = closed final reason })
  insert_message id (bytes "Order " ++ status_name final ++ bytes ": " ++ reason)
  find_order id Err.no_rows
