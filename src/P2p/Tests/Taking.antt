-- ===== src/P2p/Tests/Taking.antt =====
-- The second user takes all that is left of the open ad, under a key.
use dex_backend.Base.{
  ℕ, ◌≡◌, ◌+◌, ◌⊎◌, ◌==◌, refl, inl, inr, true, false, none, some, [], arith, Bool-cases,
}
use mathlib.Core.Path.{subst}
use dex_backend.Base.Key.{nat_key, pair_key}
use dex_backend.Result.{ok}
use dex_backend.Text.Bytes.{Str, bytes, trim_space}
use dex_backend.Text.Decimal.{set_string, string}
use dex_backend.Asset.{Asset, asset_eq, biusd}
use dex_backend.Asset.Laws.{asset_key}
use dex_backend.Table.{select, insert, update}
use dex_backend.Tx.{transact, ◌>>=◌}
use dex_backend.Ledger.{lock_user, validate_positive_amount}
use dex_backend.Ledger.Cells.{total}
use dex_backend.P2p.Schema.{biusd_1pct_each, legacy_fiat, upi, pending_payment, Order, P2pDb}
use dex_backend.P2p.{
  lock_wallet, update_wallets, update_listing, insert_wallet_entry, insert_event, insert_message,
}
use dex_backend.P2p.Fees.{p2p_biusd_settlement}
use dex_backend.P2p.Fiat.{round_to_paise, p2p_fiat_value}
use dex_backend.P2p.Funding.{on_ledger, validate_idempotency_key}
use dex_backend.P2p.Holdings.{held}
use dex_backend.P2p.Lifecycle.{IsSound}
use dex_backend.P2p.Release.Collect.{HasFeeWallet}
use dex_backend.P2p.Methods.{method_eq}
use dex_backend.P2p.Taking.{
  prior_of, choose_method, fits_limits, order_fees, new_order, is_legacy, create_order_with_payment,
}
use dex_backend.P2p.Taking.Laws.{Placed, Repeated, create_order_with_payment_places}
use dex_backend.P2p.Taking.Sound.{IsServed, create_order_with_payment_conserves}
use dex_backend.P2p.Taking.Once.{create_order_with_payment_once}
use dex_backend.P2p.Tests.{market, account, open_ad, ad, fee_wallet, market-IsSound}

abbrev key : Str
key = bytes "key-1"

abbrev placed : Order
placed = record {
  listing_id = 2;
  seller_id = 1;
  buyer_id = 2;
  taker_id = 2;
  asset = biusd;
  amount = 100;
  price = 10000000000;
  gross_amount = 1000000;
  escrow = 101;
  buyer_fee = 1;
  seller_fee = 1;
  buyer_credit = 99;
  seller_debit = 101;
  fee_model = biusd_1pct_each;
  payment_method = upi;
  payment_account = account;
  idempotency_key = some key;
  status = pending_payment;
  expires_at = 900005;
  buyer_own_account_attested = false;
  appeal_available_at = none;
  appealed_by = none;
  appeal_reason = none;
  cancellation_reason = none;
  cancelled_by = none;
}

abbrev after : P2pDb
after = (create_order_with_payment 5 2 2 (string 100) [] key market).1

take_run : create_order_with_payment 5 2 2 (string 100) [] key market ≡ (ok (3, placed), after)
unfolding create_order_with_payment string set_string validate_positive_amount
    validate_idempotency_key on_ledger lock_user prior_of choose_method fits_limits order_fees
    new_order p2p_fiat_value round_to_paise p2p_biusd_settlement trim_space transact ◌>>=◌ select
    update insert lock_wallet update_wallets update_listing insert_wallet_entry insert_event
    insert_message asset_eq method_eq
take_run = refl

create_order_with_payment_places_example :
    (x : ℕ) × (k : Str) × (validate_positive_amount (string 100) ≡ ok x)
    × (validate_idempotency_key key false ≡ ok k)
    × (Placed 5 2 2 x (string 100) [] k 3 placed market after
        ⊎ Repeated 2 2 (string 100) k 3 placed market after)
create_order_with_payment_places_example =
    create_order_with_payment_places 5 2 2 (string 100) [] key market take_run

pub market-IsServed : IsServed market
unfolding select
market-IsServed id l h = elim (Bool-cases (1 == id)) [
  | inl first ↦
      let l_is : ad ≡ l = ground arith in
      subst
        (λ m.
          HasFeeWallet market m.asset
          × (is_legacy m.side m.funding_source ≡ true → m.fee_model ≡ legacy_fiat))
        l_is (fee_wallet, λ legacy. cc)
  | inr later ↦ elim (Bool-cases (2 == id)) [
    | inl second ↦
        let l_is : open_ad ≡ l = ground arith in
        subst
          (λ m.
            HasFeeWallet market m.asset
            × (is_legacy m.side m.funding_source ≡ true → m.fee_model ≡ legacy_fiat))
          l_is (fee_wallet, λ legacy. cc)
    | inr neither ↦ absurd (ground arith)
  ]
]

create_order_with_payment_conserves_example :
    IsSound after
    × IsServed after
    × ((c : Asset) → total c after.ledger + held c after ≡ total c market.ledger + held c market)
    × ((j : ℕ) → (3 == j) ≡ false → select j after.orders ≡ select j market.orders)
create_order_with_payment_conserves_example =
    create_order_with_payment_conserves 5 2 2 (string 100) [] key market market-IsSound
      market-IsServed take_run

key_read : validate_idempotency_key key false ≡ ok key
unfolding validate_idempotency_key trim_space
key_read = refl

create_order_with_payment_once_example :
    create_order_with_payment 77 2 2 (string 100) (bytes "NEFT") key after ≡ (ok (3, placed), after)
create_order_with_payment_once_example =
    create_order_with_payment_once 5 77 2 2 100 b'k' [] (bytes "NEFT") key (bytes "ey-1") market
      key_read take_run
