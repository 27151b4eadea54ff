-- ===== src/P2p/Tests/Market.antt =====
-- A wallet is funded, an order is paid, the open ad is taken, an ad is withdrawn, an ad is
-- posted, an appeal is refused and the job runs.
use dex_backend.Base.{◌≡◌, ◌+◌, true, List, [], ◌∷◌}
use dex_backend.Text.Bytes.{bytes}
use dex_backend.Text.Decimal.{string}
use dex_backend.Asset.{Asset}
use dex_backend.Ledger.Cells.{total}
use dex_backend.P2p.Holdings.{held}
use dex_backend.P2p.Lifecycle.Runs.{OrderCall}
use dex_backend.P2p.Market.{MarketCall, market_calls}
use dex_backend.P2p.Market.Books.{IsRunning, market_calls_conserves}
use dex_backend.P2p.Tests.{market, fee_wallet, market-IsSound}
use dex_backend.P2p.Tests.Taking.{market-IsServed}

abbrev calls : List MarketCall
calls =
    MarketCall.fund 1 (bytes "BIUSD") (bytes "50") (bytes "key-0")
    ∷ MarketCall.about_order (OrderCall.mark_paid 1000 2 1 true)
    ∷ MarketCall.take 5 2 2 (string 100) [] (bytes "key-1")
    ∷ MarketCall.withdraw_ad 1 1
    ∷ MarketCall.post 1 (bytes "buy") (bytes "BIUSD") (bytes "200") (bytes "UPI" ∷ [])
        (bytes "trader") [] []
    ∷ MarketCall.about_order (OrderCall.open_appeal 6 2 1 (bytes "no answer"))
    ∷ MarketCall.expire 1000000 50
    ∷ []

market_calls_conserves_example :
    IsRunning (market_calls calls market)
    × ((c : Asset)
        → total c (market_calls calls market).ledger + held c (market_calls calls market)
          ≡ total c market.ledger + held c market)
market_calls_conserves_example =
    market_calls_conserves calls market (market-IsSound, market-IsServed, fee_wallet)
