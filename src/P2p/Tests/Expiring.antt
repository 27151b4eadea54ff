-- ===== src/P2p/Tests/Expiring.antt =====
-- The first order's time is up; the job gives its escrow back.
use dex_backend.Base.{◌≡◌, ◌≤◌, refl, arith}
use dex_backend.Base.Key.{nat_key, pair_key}
use dex_backend.Result.{ok}
use dex_backend.Asset.{Asset, asset_eq}
use dex_backend.Asset.Laws.{asset_key}
use dex_backend.Table.{select, insert, update}
use dex_backend.Tx.{transact, ◌>>=◌}
use dex_backend.P2p.{
  lock_wallet, update_wallets, update_listing, update_order, insert_wallet_entry, insert_event,
  insert_message,
}
use dex_backend.P2p.Refund.{refund_tx}
use dex_backend.P2p.Holdings.{held}
use dex_backend.P2p.Orders.{cancel_order, cancel_by_status}
use dex_backend.P2p.Lifecycle.{IsSound}
use dex_backend.P2p.Expiry.{overdue, expire_pending_orders}
use dex_backend.P2p.Expiry.Laws.{size, expire_pending_orders-Settled}
use dex_backend.P2p.Expiry.Laws.Cancels.{Settled}
use dex_backend.P2p.Tests.{market, waiting, waiting_found, market-IsSound}

expire_run : (expire_pending_orders 1000000 50 market).0 ≡ ok tt
unfolding expire_pending_orders cancel_order cancel_by_status refund_tx transact ◌>>=◌ select update
    insert lock_wallet update_wallets update_listing insert_wallet_entry update_order insert_event
    insert_message asset_eq
expire_run = refl

one_overdue : size (overdue 1000000 market.orders) ≤ 50
unfolding overdue
one_overdue = omega arith

expire_pending_orders-Settled_example :
    Settled 1 (expire_pending_orders 1000000 50 market).1
    × IsSound (expire_pending_orders 1000000 50 market).1
    × ((c : Asset) → held c (expire_pending_orders 1000000 50 market).1 ≡ held c market)
expire_pending_orders-Settled_example =
    expire_pending_orders-Settled 1000000 50 1 waiting market market-IsSound expire_run one_overdue
      waiting_found refl
