-- ===== src/P2p/Taking.antt =====
-- CreateOrderWithPayment and `insertOrder` (internal/repo/p2p.go): a taker takes a part of an ad.
pub mod Funds
pub mod Laws
pub mod Sound
pub mod Once
use dex_backend.Base.{
  ℕ, suc, ◌+◌, ◌-◌, ◌*◌, ◌/◌, Bool, true, false, not, ◌&&◌, ◌||◌, Option, none, some, List, [], ◌∷◌,
  ltb, leb, ◌==◌, if◌then◌else◌,
}
use dex_backend.Base.Key.{nat_key, pair_key}
use dex_backend.Result.{Result, ok, err, Err}
use dex_backend.Text.Bytes.{Str, bytes, str_eq}
use dex_backend.Text.Decimal.{string}
use dex_backend.Asset.{Asset, name, normalize_asset}
use dex_backend.Asset.Laws.{asset_key}
use dex_backend.Table.{Table, select, insert}
use dex_backend.Schema.{Balances, set_balance, set_locked}
use dex_backend.Tx.{Tx, ◌>>=◌, ◌>>◌, pure, query, given, found, check, transact}
use dex_backend.Ledger.{validate_positive_amount, lock_user, lock_balance_tx, update_balances}
use dex_backend.P2p.Schema.{
  P2pWallet, Side, buy, sell, FundingSource, p2p_wallet, main_wallet_legacy, FeeModel, legacy_fiat,
  biusd_1pct_each, ListingStatus, active, filled, Method, PaymentAccount, Listing, pending_payment,
  Order, EntryKind, p2p_to_order, legacy_main_to_order, WalletEntry, EventKind, order_created,
  OrderEvent, P2pDb,
}
use dex_backend.P2p.{
  lock_wallet, update_wallets, update_listing, insert_wallet_entry, insert_event, insert_message,
}
use dex_backend.P2p.Methods.{method_key, method_name}
use dex_backend.P2p.Fees.{p2p_biusd_settlement}
use dex_backend.P2p.Fiat.{p2p_fiat_value, round_to_paise}
use dex_backend.P2p.Funding.{on_ledger, has_key, validate_idempotency_key}
use dex_backend.P2p.Listings.{is_active}

-- SELECT … FROM p2p_orders WHERE taker_id = $1 AND idempotency_key = $2
unfoldable pub prior_order : ℕ → Str → Table ℕ Order → Option (ℕ × Order)
prior_order taker key [] = none
prior_order taker key ((id, o) ∷ rows) =
    if o.taker_id == taker && has_key key o.idempotency_key
    then some (id, o)
    else prior_order taker key rows

-- No key, no such order.
unfoldable pub prior_of : ℕ → Str → Table ℕ Order → Option (ℕ × Order)
unfolding prior_order
prior_of taker key rows = if str_eq key [] then none else prior_order taker key rows

named : Str → List Method → Option Method
named s [] = none
named s (m ∷ ms) = if str_eq (method_name m) s then some m else named s ms

-- The first method where none is selected.
unfoldable pub choose_method : Str → List Method → Option Method
unfolding named
choose_method [] [] = none
choose_method [] (m ∷ ms) = some m
choose_method (c ∷ s) ms = named (c ∷ s) ms

-- A value in units of 10^-14 INR, rounded to hundredths, in units of 10^-8 as limits are.
abbrev pub rounded : ℕ → ℕ
rounded v = round_to_paise v * 1000000

unfoldable pub fits_limits : Listing → ℕ → Bool
fits_limits l v = leb l.min_order (rounded v) && leb (rounded v) l.max_order

-- What is left of the ad can be taken too: it is nothing, or worth the least order.
pub leaves_enough : Listing → ℕ → Tx P2pDb (Unit {0})
leaves_enough l rest = if rest == 0 then pure tt else (do
  v ← given (p2p_fiat_value rest l.price)
  check (not (ltb (rounded v) l.min_order)) Err.leaves_too_little)

-- The fee, the buyer's credit and the seller's debit.
unfoldable pub order_fees : FeeModel → ℕ → Str → Result (ℕ × ℕ × ℕ)
order_fees legacy_fiat x raw = ok (0, x, x)
order_fees biusd_1pct_each x raw = p2p_biusd_settlement raw

abbrev pub take_available : ℕ → P2pWallet → P2pWallet
take_available x w = record w { available = w.available - x }

abbrev pub take_reserved : ℕ → P2pWallet → P2pWallet
take_reserved x w = record w { reserved = w.reserved - x }

from_wallet : ℕ → Asset → (P2pWallet → Bool) → (P2pWallet → P2pWallet) → Err → Tx P2pDb (Unit {0})
from_wallet seller a where_ set e = do
  lock_wallet seller a
  rows ← update_wallets seller a where_ set
  check (rows == 1) e

from_main : ℕ → Asset → ℕ → Tx P2pDb (Unit {0})
from_main seller asset x = do
  on_ledger (lock_balance_tx seller)
  a ← given (normalize_asset (name asset))
  rows ← on_ledger (
      update_balances seller (λ r. leb x (r.balance a) && leb x (r.locked a))
        (λ r. set_locked a (r.locked a - x) (set_balance a (r.balance a - x) r)))
  check (rows == 1) Err.not_reserved

-- Where the escrow of `debit` comes from: the taker's wallet for a buy ad, the reservation of a sell
-- ad, or the locked main balance of an ad from before the P2P wallet, which has no fee.
pub take_funds : Side → FundingSource → ℕ → Asset → ℕ → ℕ → Tx P2pDb (Unit {0})
unfolding from_wallet from_main
take_funds buy source seller a x debit =
    from_wallet seller a (λ w. leb debit w.available) (take_available debit) Err.insufficient_wallet
take_funds sell p2p_wallet seller a x debit =
    from_wallet seller a (λ w. leb debit w.reserved) (take_reserved debit) Err.not_reserved
take_funds sell main_wallet_legacy seller a x debit = from_main seller a x

abbrev pub is_legacy : Side → FundingSource → Bool
is_legacy sell main_wallet_legacy = true
is_legacy _ _ = false

abbrev pub seller_of : Side → ℕ → ℕ → ℕ
seller_of buy creator taker = taker
seller_of sell creator taker = creator

abbrev pub buyer_of : Side → ℕ → ℕ → ℕ
buyer_of buy creator taker = creator
buyer_of sell creator taker = taker

abbrev pub taken : ℕ → Listing → Listing
taken x l = record l {
  remaining = l.remaining - x;
  status = if l.remaining - x == 0 then filled else l.status;
}

abbrev pub key_column : Str → Option Str
key_column [] = none
key_column (c ∷ s) = some (c ∷ s)

-- The row of a new order, fifteen minutes before it expires (in milliseconds). The gross amount is
-- rounded once: PostgreSQL's division by 1000000 keeps all six decimals of amounts below 10 ^ 16.
unfoldable pub new_order :
    ℕ → ℕ → Listing → ℕ → ℕ → Method → PaymentAccount → ℕ × ℕ × ℕ → Str → Order
new_order now taker l id x m account fees key = record {
  listing_id = id;
  seller_id = seller_of l.side l.seller_id taker;
  buyer_id = buyer_of l.side l.seller_id taker;
  taker_id = taker;
  asset = l.asset;
  amount = x;
  price = l.price;
  gross_amount = (x * l.price + 500000) / 1000000;
  escrow = fees.2;
  buyer_fee = fees.0;
  seller_fee = fees.0;
  buyer_credit = fees.1;
  seller_debit = fees.2;
  fee_model = l.fee_model;
  payment_method = m;
  payment_account = account;
  idempotency_key = key_column key;
  status = pending_payment;
  expires_at = now + 900000;
  buyer_own_account_attested = false;
  appeal_available_at = none;
  appealed_by = none;
  appeal_reason = none;
  cancellation_reason = none;
  cancelled_by = none;
}

unfoldable pub insert_order : Order → Tx P2pDb ℕ
insert_order o db =
    ok (db.next_id, record db { orders = insert db.next_id o db.orders; next_id = suc db.next_id })

-- The order, its wallet entry, its event and its message.
pub record_order : Order → EntryKind → Tx P2pDb ℕ
unfolding insert_order
record_order o kind = do
  id ← insert_order o
  insert_wallet_entry (record {
    user_id = o.seller_id;
    listing_id = some o.listing_id;
    order_id = some id;
    kind = kind;
    asset = o.asset;
    amount = o.seller_debit;
    idempotency_key = none;
  })
  insert_event
      (record { order_id = id; actor_id = some o.taker_id; kind = order_created o.payment_method })
  insert_message id (bytes "Order created. Complete payment before the deadline.")
  pure id

-- The checks of the ad, and the payment account.
pub take_checks : ℕ → Listing → ℕ → Str → Tx P2pDb (Method × PaymentAccount)
unfolding leaves_enough
take_checks taker l x selected = do
  check (not (taker == l.seller_id)) Err.self_purchase
  m ← found (choose_method selected l.payment_methods) Err.method_not_offered
  check (is_active l.status && leb x l.remaining) Err.unavailable
  v ← given (p2p_fiat_value x l.price)
  check (fits_limits l v) Err.outside_limits
  leaves_enough l (l.remaining - x)
  row ← query (λ db. select (seller_of l.side l.seller_id taker, m) db.payment_accounts)
  account ← found row Err.no_payment_account
  pure (m, account)

-- The escrow, the ad and the order.
pub place :
    ℕ → ℕ → ℕ → ℕ → Str → Listing → Method → PaymentAccount → ℕ × ℕ × ℕ → Tx P2pDb (ℕ × Order)
unfolding take_funds record_order
place now taker id x key l m account fees = do
  take_funds l.side l.funding_source (seller_of l.side l.seller_id taker) l.asset x fees.2
  update_listing id (taken x)
  n ←
      record_order (new_order now taker l id x m account fees key)
        (if is_legacy l.side l.funding_source then legacy_main_to_order else p2p_to_order)
  pure (n, new_order now taker l id x m account fees key)

pub take_listing : ℕ → ℕ → ℕ → ℕ → Str → Str → Str → Listing → Tx P2pDb (ℕ × Order)
unfolding take_checks place
take_listing now taker id x raw selected key l = do
  paid_by ← take_checks taker l x selected
  fees ← given (order_fees l.fee_model x raw)
  place now taker id x key l paid_by.0 paid_by.1 fees

pub take_ad : ℕ → ℕ → ℕ → ℕ → Str → Str → Str → Tx P2pDb (ℕ × Order)
unfolding take_listing
take_ad now taker id x raw selected key = do
  row ← query (λ db. select id db.listings)
  l ← found row Err.not_found
  take_listing now taker id x raw selected key l

-- The key was used: the same request again returns its order. The amounts are compared as texts.
take_or_replay : ℕ → ℕ → ℕ → ℕ → Str → Str → Str → Option (ℕ × Order) → Tx P2pDb (ℕ × Order)
unfolding take_ad
take_or_replay now taker id x raw selected key (some (n, o)) = do
  check (o.listing_id == id && str_eq (string o.amount) raw) Err.key_reused
  pure (n, o)
take_or_replay now taker id x raw selected key none = take_ad now taker id x raw selected key

-- The order that is returned carries no `LegacyMainDebit`, a mark for the response that no row keeps.
unfoldable pub create_order_with_payment :
    ℕ → ℕ → ℕ → Str → Str → Str → P2pDb → Result (ℕ × Order) × P2pDb
unfolding take_or_replay
create_order_with_payment now taker id raw selected idempotency_key = transact do
  x ← given (validate_positive_amount raw)
  key ← given (validate_idempotency_key idempotency_key false)
  on_ledger (lock_user taker)
  prior ← query (λ db. prior_of taker key db.orders)
  take_or_replay now taker id x raw selected key prior

create_order : ℕ → ℕ → ℕ → Str → Str → P2pDb → Result (ℕ × Order) × P2pDb
create_order now taker id raw idempotency_key =
    create_order_with_payment now taker id raw [] idempotency_key
