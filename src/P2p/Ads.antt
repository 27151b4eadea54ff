-- ===== src/P2p/Ads.antt =====
-- CreateListingWithLimits and the methods that call it with defaults (internal/repo/p2p.go).
pub mod Laws
use dex_backend.Base.{
  ℕ, suc, ◌+◌, ◌-◌, ◌*◌, Bool, true, false, not, ◌||◌, Option, none, some, List, [], ◌∷◌, leb, ◌==◌,
  if◌then◌else◌,
}
use dex_backend.Base.Key.{nat_key, pair_key}
use dex_backend.Result.{Result, ok, err, Err}
use dex_backend.Text.Bytes.{Str, bytes, str_eq, trim_space, to_upper}
use dex_backend.Asset.{Asset}
use dex_backend.Asset.Laws.{asset_key}
use dex_backend.Table.{select, insert}
use dex_backend.Tx.{Tx, ◌>>=◌, ◌>>◌, pure, query, given, found, check, transact}
use dex_backend.Ledger.{is_some, validate_positive_amount}
use dex_backend.P2p.Schema.{
  P2pWallet, Side, buy, sell, p2p_wallet, biusd_1pct_each, active, Method, Listing, EntryKind,
  listing_reserve, WalletEntry, P2pDb,
}
use dex_backend.P2p.{lock_wallet, update_wallets, insert_wallet_entry}
use dex_backend.P2p.Methods.{method_key}
use dex_backend.P2p.Fees.{p2p_biusd_settlement}
use dex_backend.P2p.Fiat.{validate_p2p_order_limits}
use dex_backend.P2p.Profile.{normalize_payment_methods, is_username, set_username}
use dex_backend.P2p.Funding.{normalize_p2p_asset}

side_of : Str → Result Side
side_of s =
    if str_eq s (bytes "BUY")
    then ok buy
    else if str_eq s (bytes "SELL")
    then ok sell
    else err Err.bad_side

unfoldable pub normalize_p2p_side : Str → Result Side
unfolding side_of
normalize_p2p_side side = side_of (to_upper (trim_space side))

-- The creator's name, set now if there is none yet.
pub establish : ℕ → Str → Option Str → Tx P2pDb (Unit {0})
establish user username (some name) = pure tt
establish user username none = do
  check (is_username (trim_space username)) Err.bad_username
  set_username user (trim_space username)

all_configured : ℕ → List Method → Tx P2pDb (Unit {0})
all_configured user [] = pure tt
all_configured user (m ∷ ms) = do
  row ← query (λ db. select (user, m) db.payment_accounts)
  check (is_some row) Err.no_payment_account
  all_configured user ms

-- From the available to the reserved part of a wallet.
abbrev pub hold : ℕ → P2pWallet → P2pWallet
hold x w = record w { available = w.available - x; reserved = w.reserved + x }

reserve : ℕ → Asset → ℕ → Tx P2pDb (Unit {0})
reserve user a x = do
  lock_wallet user a
  rows ← update_wallets user a (λ w. leb x w.available) (hold x)
  check (rows == 1) Err.insufficient_wallet

-- A sell ad needs its creator's payment accounts, and reserves what its fills will debit.
pub back_ad : Side → ℕ → Asset → List Method → ℕ → Tx P2pDb (Unit {0})
unfolding all_configured reserve
back_ad buy user a methods x = pure tt
back_ad sell user a methods x = do all_configured user methods; reserve user a x

unfoldable pub insert_listing : Listing → Tx P2pDb ℕ
insert_listing l db =
    ok (
      db.next_id,
      record db { listings = insert db.next_id l db.listings; next_id = suc db.next_id },
    )

pub log_reserve : Side → ℕ → ℕ → Asset → ℕ → Tx P2pDb (Unit {0})
log_reserve buy user id a x = pure tt
log_reserve sell user id a x = insert_wallet_entry (record {
  user_id = user;
  listing_id = some id;
  order_id = none;
  kind = listing_reserve;
  asset = a;
  amount = x;
  idempotency_key = none;
})

-- The row of a new ad. The limits are in hundredths of INR.
abbrev pub new_listing : ℕ → Side → Asset → ℕ → ℕ → ℕ × ℕ → List Method → Listing
new_listing user side a x price limits methods = record {
  seller_id = user;
  side = side;
  asset = a;
  amount = x;
  remaining = x;
  price = price;
  min_order = limits.0 * 1000000;
  max_order = limits.1 * 1000000;
  payment_methods = methods;
  status = active;
  funding_source = p2p_wallet;
  fee_model = biusd_1pct_each;
}

-- The reservation, the ad and its wallet entry.
pub publish : ℕ → Side → Asset → List Method → Str → Listing → Tx P2pDb (ℕ × Listing)
unfolding back_ad insert_listing log_reserve
publish user side a methods raw l = do
  fees ← given (p2p_biusd_settlement raw)
  back_ad side user a methods fees.2
  id ← insert_listing l
  log_reserve side user id a fees.2
  pure (id, l)

pub price_ad : ℕ → Side → Asset → ℕ → Str → List Method → Str → Str → Str → Tx P2pDb (ℕ × Listing)
unfolding establish publish
price_ad user side a x raw methods username min_order max_order = do
  row ← query (λ db. select user db.ledger.users)
  u ← found row Err.no_rows
  establish user username u.p2p_username
  today ← query (λ db. select a db.prices)
  price ← found today Err.no_price
  limits ← given (validate_p2p_order_limits x price min_order max_order)
  publish user side a methods raw (new_listing user side a x price limits methods)

unfoldable pub create_listing_with_limits :
    ℕ → Str → Str → Str → List Str → Str → Str → Str → P2pDb → Result (ℕ × Listing) × P2pDb
unfolding price_ad
create_listing_with_limits user side_text asset raw method_texts username min_order max_order =
    transact do
      a ← given (normalize_p2p_asset asset)
      x ← given (validate_positive_amount raw)
      side ← given (normalize_p2p_side side_text)
      methods ← given (normalize_payment_methods method_texts)
      price_ad user side a x raw methods username min_order max_order

create_listing_for_asset : ℕ → Str → Str → Str → P2pDb → Result (ℕ × Listing) × P2pDb
create_listing_for_asset user asset raw method =
    create_listing_with_limits user (bytes "SELL") asset raw (method ∷ []) [] [] []
