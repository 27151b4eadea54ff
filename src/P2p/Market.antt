-- ===== src/P2p/Market.antt =====
-- The market as a whole: wallets are funded, ads are posted and withdrawn, orders are placed on them,
-- go through their life and expire (internal/repo/p2p.go, internal/repo/p2p_workflow.go).
pub mod Frames
pub mod Orders
pub mod Calm
pub mod Funds
pub mod Books
use dex_backend.Base.{ℕ, List, [], ◌∷◌}
use dex_backend.Text.Bytes.{Str}
use dex_backend.P2p.Schema.{P2pDb}
use dex_backend.P2p.Funding.{fund_wallet_asset}
use dex_backend.P2p.Listings.{cancel_listing}
use dex_backend.P2p.Ads.{create_listing_with_limits}
use dex_backend.P2p.Taking.{create_order_with_payment}
use dex_backend.P2p.Expiry.{expire_pending_orders}
use dex_backend.P2p.Lifecycle.Runs.{OrderCall, perform}

pub data MarketCall : Type 0 where
  fund : ℕ → Str → Str → Str → MarketCall
  post : ℕ → Str → Str → Str → List Str → Str → Str → Str → MarketCall
  withdraw_ad : ℕ → ℕ → MarketCall
  take : ℕ → ℕ → ℕ → Str → Str → Str → MarketCall
  about_order : OrderCall → MarketCall
  expire : ℕ → ℕ → MarketCall

unfoldable pub market_call : MarketCall → P2pDb → P2pDb
market_call (fund user asset raw key) db = (fund_wallet_asset user asset raw key db).1
market_call (post user side asset raw methods username min_order max_order) db =
    (create_listing_with_limits user side asset raw methods username min_order max_order db).1
market_call (withdraw_ad seller id) db = (cancel_listing seller id db).1
market_call (take now taker id raw selected key) db =
    (create_order_with_payment now taker id raw selected key db).1
market_call (about_order c) db = perform c db
market_call (expire now limit) db = (expire_pending_orders now limit db).1

unfoldable pub market_calls : List MarketCall → P2pDb → P2pDb
market_calls [] db = db
market_calls (c ∷ cs) db = market_calls cs (market_call c db)
