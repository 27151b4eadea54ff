-- ===== src/P2p/Tests/Listings.antt =====
-- The seller cancels the ad that is still open.
use dex_backend.Base.{◌≡◌, refl, ℕ, true, some}
use dex_backend.Base.Key.{nat_key, pair_key}
use dex_backend.Result.{ok}
use dex_backend.Text.Decimal.{set_string, string}
use dex_backend.Asset.{asset_eq, biusd}
use dex_backend.Asset.Laws.{asset_key}
use dex_backend.Table.{select, insert, update}
use dex_backend.Tx.{transact, ◌>>=◌}
use dex_backend.P2p.Schema.{withdrawn}
use dex_backend.P2p.{lock_wallet, update_wallets, update_listing, insert_wallet_entry}
use dex_backend.P2p.Fees.{p2p_biusd_settlement}
use dex_backend.P2p.Listings.{is_active, own_active, release_amount, cancel_listing}
use dex_backend.P2p.Listings.Laws.{IsReserved, Freed, cancel_listing_frees}
use dex_backend.P2p.Tests.{market, open_ad}

ad_found : select 2 market.listings ≡ some open_ad
unfolding select
ad_found = refl

cancel_listing_run : cancel_listing 1 2 market ≡ (ok tt, (cancel_listing 1 2 market).1)
unfolding cancel_listing own_active release_amount p2p_biusd_settlement set_string string transact
    ◌>>=◌ select update insert lock_wallet update_wallets update_listing insert_wallet_entry
    asset_eq
cancel_listing_run = refl

cancel_listing_frees_example :
    (◌≡◌ {A = ℕ} 1 1)
    × (is_active open_ad.status ≡ true)
    × (x : ℕ) × IsReserved open_ad.fee_model open_ad.remaining x
    × Freed 1 biusd x market (cancel_listing 1 2 market).1
    × ((cancel_listing 1 2 market).1.listings
        ≡ update 2 (λ l. record l { status = withdrawn }) market.listings)
cancel_listing_frees_example =
    cancel_listing_frees 1 2 open_ad market ad_found refl refl cancel_listing_run
