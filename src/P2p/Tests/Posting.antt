-- ===== src/P2p/Tests/Posting.antt =====
-- The first user posts a sell ad of 200 raw units, out of 500 in the P2P wallet.
use dex_backend.Base.{ℕ, ◌≡◌, refl, List, [], ◌∷◌}
use dex_backend.Base.Key.{nat_key, pair_key}
use dex_backend.Result.{ok}
use dex_backend.Text.Bytes.{Str, bytes, trim_space}
use dex_backend.Text.Decimal.{set_string}
use dex_backend.Text.Fixed.{float_string, read_fixed}
use dex_backend.Asset.{Asset, asset_eq, biusd, normalize_asset, asset_columns}
use dex_backend.Asset.Laws.{asset_key}
use dex_backend.Table.{select, insert, update}
use dex_backend.Tx.{transact, ◌>>=◌}
use dex_backend.Ledger.{validate_positive_amount}
use dex_backend.P2p.Schema.{
  Side, sell, p2p_wallet, biusd_1pct_each, active, upi, Method, Listing, P2pDb,
}
use dex_backend.P2p.{lock_wallet, update_wallets, insert_wallet_entry}
use dex_backend.P2p.Methods.{method_of, method_eq}
use dex_backend.P2p.Fees.{p2p_biusd_settlement}
use dex_backend.P2p.Fiat.{round_to_paise, validate_p2p_order_limits}
use dex_backend.P2p.Profile.{normalize_payment_methods, is_username, set_username}
use dex_backend.P2p.Funding.{normalize_p2p_asset}
use dex_backend.P2p.Holdings.{held}
use dex_backend.P2p.Ads.{normalize_p2p_side, create_listing_with_limits}
use dex_backend.P2p.Ads.Laws.{Posted, create_listing_with_limits_posts}
use dex_backend.P2p.Tests.{market}

abbrev rich : P2pDb
rich = record market { wallets = ((1, biusd), record { available = 500; reserved = 102 }) ∷ [] }

abbrev texts : List Str
texts = bytes "UPI" ∷ []

abbrev posted : Listing
posted = record {
  seller_id = 1;
  side = sell;
  asset = biusd;
  amount = 200;
  remaining = 200;
  price = 10000000000;
  min_order = 1000000;
  max_order = 2000000;
  payment_methods = upi ∷ [];
  status = active;
  funding_source = p2p_wallet;
  fee_model = biusd_1pct_each;
}

abbrev after : P2pDb
after =
    (create_listing_with_limits 1 (bytes "sell") (bytes "BIUSD") (bytes "200") texts (bytes "ann_1")
      [] [] rich).1

post_run :
    create_listing_with_limits 1
      (bytes "sell")
      (bytes "BIUSD")
      (bytes "200")
      texts
      (bytes "ann_1")
      []
      []
      rich
    ≡ (ok (3, posted), after)
unfolding create_listing_with_limits normalize_p2p_asset normalize_p2p_side
    normalize_payment_methods normalize_asset asset_columns asset_eq method_of method_eq is_username
    set_username validate_p2p_order_limits round_to_paise float_string read_fixed
    p2p_biusd_settlement validate_positive_amount set_string trim_space transact ◌>>=◌ select update
    insert lock_wallet update_wallets insert_wallet_entry
post_run = refl

create_listing_with_limits_posts_example :
    (a : Asset) × (x : ℕ) × (side : Side) × (methods : List Method) × (normalize_p2p_asset
        (bytes "BIUSD")
      ≡ ok a)
    × (validate_positive_amount (bytes "200") ≡ ok x)
    × (normalize_p2p_side (bytes "sell") ≡ ok side)
    × (normalize_payment_methods texts ≡ ok methods)
    × Posted 1 side a x (bytes "200") methods [] [] 3 posted rich after
    × ((c : Asset) → held c after ≡ held c rich)
create_listing_with_limits_posts_example =
    create_listing_with_limits_posts 1 (bytes "sell") (bytes "BIUSD") (bytes "200") texts
      (bytes "ann_1") [] [] rich post_run
