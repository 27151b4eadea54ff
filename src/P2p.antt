-- ===== src/P2p.antt =====
-- The peer-to-peer market of BIUSD (internal/repo/p2p.go, internal/repo/p2p_workflow.go): the
-- statements that its methods share.
pub mod Schema
pub mod Fees
pub mod Methods
pub mod Fiat
pub mod Profile
pub mod Refund
pub mod Release
pub mod Holdings
pub mod Orders
pub mod Appeals
pub mod Lifecycle
pub mod Funding
pub mod Listings
pub mod Ads
pub mod Taking
pub mod Expiry
pub mod Market
mod Tests
use dex_backend.Base.{
  ℕ, ◌==◌, ◌||◌, Bool, true, false, Option, none, some, List, [], ◌∷◌, if◌then◌else◌,
}
use dex_backend.Base.Key.{nat_key, pair_key}
use dex_backend.Result.{Result, ok, err, Err}
use dex_backend.Text.Bytes.{Str}
use dex_backend.Asset.{Asset}
use dex_backend.Asset.Laws.{asset_key}
use dex_backend.Table.{select, insert, update}
use dex_backend.Tx.{Tx, ◌>>=◌, query, found}
use dex_backend.Ledger.{is_some}
use dex_backend.P2p.Schema.{P2pWallet, Listing, Order, WalletEntry, OrderEvent, P2pDb}

abbrev pub empty_wallet : P2pWallet
empty_wallet = record { available = 0; reserved = 0 }

-- INSERT INTO p2p_wallet_balances … ON CONFLICT DO NOTHING, with the foreign key to users.
add_wallet : ℕ → Asset → Option P2pWallet → Tx P2pDb (Unit {0})
add_wallet user a (some w) db = ok (tt, db)
add_wallet user a none db =
    if is_some (select user db.ledger.users)
    then ok (tt, record db { wallets = insert (user, a) empty_wallet db.wallets })
    else err Err.violates

-- `lockWallet`
unfoldable pub lock_wallet : ℕ → Asset → Tx P2pDb (Unit {0})
unfolding add_wallet
lock_wallet user a db = add_wallet user a (select (user, a) db.wallets) db

-- UPDATE p2p_wallet_balances SET … WHERE user_id = $1 AND asset = $2 AND …, with the number of
-- rows that it changed.
unfoldable pub update_wallets :
    ℕ → Asset → (P2pWallet → Bool) → (P2pWallet → P2pWallet) → Tx P2pDb ℕ
update_wallets user a where_ set db = elim (select (user, a) db.wallets) [
  | none ↦ ok (0, db)
  | some w ↦
      if where_ w
      then ok (1, record db { wallets = update (user, a) set db.wallets })
      else ok (0, db)
]

abbrev pub any_wallet : P2pWallet → Bool
any_wallet w = true

unfoldable pub update_listing : ℕ → (Listing → Listing) → Tx P2pDb (Unit {0})
update_listing id set db = ok (tt, record db { listings = update id set db.listings })

unfoldable pub update_order : ℕ → (Order → Order) → Tx P2pDb (Unit {0})
update_order id set db = ok (tt, record db { orders = update id set db.orders })

unfoldable pub insert_wallet_entry : WalletEntry → Tx P2pDb (Unit {0})
insert_wallet_entry e db = ok (tt, record db { wallet_entries = e ∷ db.wallet_entries })

unfoldable pub insert_event : OrderEvent → Tx P2pDb (Unit {0})
insert_event e db = ok (tt, record db { order_events = e ∷ db.order_events })

unfoldable pub insert_message : ℕ → Str → Tx P2pDb (Unit {0})
insert_message order body db =
    ok (tt, record db { order_messages = (order, body) ∷ db.order_messages })

-- SELECT … FROM p2p_orders WHERE id = $1
abbrev pub find_order : ℕ → Err → Tx P2pDb Order
find_order id e = do row ← query (λ db. select id db.orders); found row e
