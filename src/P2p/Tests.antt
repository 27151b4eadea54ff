-- ===== src/P2p/Tests.antt =====
-- Two orders of one ad: the first waits for payment, the second is paid.
mod Funding
mod Listings
mod Profiles
mod Posting
mod Taking
mod Expiring
mod Market
use dex_backend.Base.{
  ℕ, ◌≡◌, refl, ◌+◌, ◌*◌, ◌≤◌, ◌<◌, ◌⊎◌, inl, inr, Bool-cases, Bool, true, false, none, some, List,
  [], ◌∷◌, ◌==◌, arith,
}
use mathlib.Core.Path.{subst}
use dex_backend.Base.Key.{nat_key, pair_key}
use dex_backend.Result.{Result, ok, err, Err}
use dex_backend.Text.Bytes.{Str, bytes, trim_space}
use dex_backend.Text.Decimal.{pos, set_string, string}
use dex_backend.Asset.{Asset, asset_eq, biusd}
use dex_backend.Asset.Laws.{asset_key}
use dex_backend.Table.{select, insert, update, sum}
use dex_backend.Schema.{User, set_balance, set_locked, no_balances}
use dex_backend.Tx.{transact, ◌>>=◌}
use dex_backend.P2p.Schema.{
  P2pWallet, sell, p2p_wallet, biusd_1pct_each, active, filled, Listing, pending_payment,
  payment_made, completed, cancelled, upi, PaymentAccount, Order, P2pDb,
}
use dex_backend.P2p.{
  lock_wallet, update_wallets, update_listing, update_order, insert_wallet_entry, insert_event,
  insert_message,
}
use dex_backend.P2p.Fees.{p2p_biusd_settlement}
use dex_backend.P2p.Fees.Laws.{p2p_biusd_settlement_splits, settlement_covers}
use dex_backend.P2p.Refund.{refund_tx}
use dex_backend.P2p.Release.{may_release, release_order}
use dex_backend.P2p.Release.Laws.{IsAccounted, Released, release_order_pays}
use dex_backend.P2p.Release.Collect.{HasFeeWallet}
use dex_backend.P2p.Holdings.{held, wallet_of}
use dex_backend.P2p.Funding.{
  on_ledger, normalize_p2p_asset, validate_idempotency_key, prior_funding, fund_wallet_asset,
}
use dex_backend.P2p.Funding.Steps.{Funded}
use dex_backend.P2p.Funding.Laws.{
  Requests, Replayed, fund_wallet_asset_moves, fund_wallet_asset_once,
}
use dex_backend.Ledger.{
  validate_positive_amount, lock_balance_tx, update_balances, pending_withdrawal_hold,
}
use dex_backend.Ledger.Cells.{Same}
use dex_backend.P2p.Orders.{cancel_order, cancel_by_status}
use dex_backend.P2p.Orders.Laws.{GivenUp, cancel_order_refunds}
use dex_backend.P2p.Lifecycle.{IsSound}
use dex_backend.P2p.Lifecycle.Runs.{
  OrderCall, perform_all, Continues, perform_all_conserves, perform_all-Continues,
}

raw_250 : set_string (bytes "250") ≡ some (pos 250)
unfolding set_string
raw_250 = refl

p2p_biusd_settlement_splits_example :
    (fee : ℕ) × (credit : ℕ) × (debit : ℕ) × (p2p_biusd_settlement (bytes "250")
      ≡ ok (fee, credit, debit))
    × (fee * 100 ≤ 250)
    × (250 < fee * 100 + 100)
    × (credit + fee ≡ 250)
    × (debit ≡ credit + fee + fee)
    × (0 < credit)
p2p_biusd_settlement_splits_example =
    p2p_biusd_settlement_splits (bytes "250") 250 raw_250 (omega arith)

raw_150 : set_string (bytes "150") ≡ some (pos 150)
unfolding set_string
raw_150 = refl

raw_300 : set_string (bytes "300") ≡ some (pos (150 + 150))
unfolding set_string
raw_300 = refl

settled_150 : p2p_biusd_settlement (bytes "150") ≡ ok (1, 149, 151)
unfolding p2p_biusd_settlement set_string
settled_150 = refl

settled_300 : p2p_biusd_settlement (bytes "300") ≡ ok (3, 297, 303)
unfolding p2p_biusd_settlement set_string
settled_300 = refl

settlement_covers_example : (151 + 151 ≤ 303) × (303 ≤ 151 + 151 + 1)
settlement_covers_example =
    settlement_covers (bytes "150") (bytes "150") (bytes "300") 150 150 raw_150 raw_150 raw_300
      settled_150 settled_150 settled_300

abbrev user : User
user = record { wallet_address = []; p2p_username = none }

abbrev pub ad : Listing
ad = record {
  seller_id = 1;
  side = sell;
  asset = biusd;
  amount = 300;
  remaining = 0;
  price = 10000000000;
  min_order = 1000000;
  max_order = 3000000;
  payment_methods = upi ∷ [];
  status = filled;
  funding_source = p2p_wallet;
  fee_model = biusd_1pct_each;
}

abbrev pub open_ad : Listing
open_ad = record ad { amount = 100; remaining = 100; status = active }

abbrev pub account : PaymentAccount
account = record {
  account_name = bytes "Asha";
  account_identifier = bytes "asha@upi";
  bank_name = [];
  ifsc_code = [];
  instructions = [];
}

abbrev pub waiting : Order
waiting = record {
  listing_id = 1;
  seller_id = 1;
  buyer_id = 2;
  taker_id = 2;
  asset = biusd;
  amount = 150;
  price = 10000000000;
  gross_amount = 1500000;
  escrow = 151;
  buyer_fee = 1;
  seller_fee = 1;
  buyer_credit = 149;
  seller_debit = 151;
  fee_model = biusd_1pct_each;
  payment_method = upi;
  payment_account = account;
  idempotency_key = none;
  status = pending_payment;
  expires_at = 900000;
  buyer_own_account_attested = false;
  appeal_available_at = none;
  appealed_by = none;
  appeal_reason = none;
  cancellation_reason = none;
  cancelled_by = none;
}

abbrev paid : Order
paid = record waiting { status = payment_made; appeal_available_at = some 700000 }

abbrev pub market : P2pDb
market = record {
  ledger = record {
    users = (1, user) ∷ (2, user) ∷ [];
    user_balances = (2, set_balance biusd 1000 (set_locked biusd 100 no_balances)) ∷ [];
    ledger_entries = [];
    next_id = 1;
  };
  wallets = ((1, biusd), record { available = 5; reserved = 102 }) ∷ [];
  admin_wallets = (biusd, 40) ∷ [];
  listings = (1, ad) ∷ (2, open_ad) ∷ [];
  prices = (biusd, 10000000000) ∷ [];
  payment_accounts = ((1, upi), account) ∷ [];
  orders = (1, waiting) ∷ (2, paid) ∷ [];
  order_proofs = (1, 2) ∷ [];
  wallet_entries = [];
  admin_entries = [];
  order_events = [];
  order_messages = [];
  next_id = 3;
}

pub waiting_found : select 1 market.orders ≡ some waiting
unfolding select
waiting_found = refl

paid_found : select 2 market.orders ≡ some paid
unfolding select
paid_found = refl

pub fee_wallet : HasFeeWallet market biusd
unfolding select asset_eq
fee_wallet = refl

paid-IsAccounted : IsAccounted paid
paid-IsAccounted = (λ over. ground arith, λ goes_on. refl)

waiting-IsAccounted : IsAccounted waiting
waiting-IsAccounted = (λ over. ground arith, λ goes_on. refl)

release_run :
    release_order 1 2 false market
    ≡ (ok (record paid { escrow = 0; status = completed }), (release_order 1 2 false market).1)
unfolding release_order transact ◌>>=◌ select update insert lock_wallet update_wallets
    insert_wallet_entry update_order insert_event insert_message asset_eq
release_run = refl

release_order_pays_example :
    (1 == 1 ≡ true)
    × (((paid.status ≡ completed)
          × (record paid { escrow = 0; status = completed } ≡ paid)
          × ((release_order 1 2 false market).1 ≡ market))
        ⊎ ((may_release false paid.status ≡ true)
            × (record paid { escrow = 0; status = completed }
                ≡ record paid { escrow = 0; status = completed })
            × Released 2 paid market (release_order 1 2 false market).1))
release_order_pays_example =
    release_order_pays 1 2 false paid market paid_found paid-IsAccounted fee_wallet release_run

abbrev gone : Order
gone = record waiting {
  escrow = 0;
  status = cancelled;
  cancellation_reason = some (bytes "no");
  cancelled_by = some 2;
}

cancel_run :
    cancel_order 2 1 false (bytes "no") market
    ≡ (ok gone, (cancel_order 2 1 false (bytes "no") market).1)
unfolding cancel_order cancel_by_status refund_tx transact ◌>>=◌ select update insert lock_wallet
    update_wallets update_listing insert_wallet_entry update_order insert_event insert_message
    asset_eq
cancel_run = refl

cancel_order_refunds_example :
    (2 == 2 ≡ true)
    × (((waiting.status ≡ cancelled)
          × (gone ≡ waiting)
          × ((cancel_order 2 1 false (bytes "no") market).1 ≡ market))
        ⊎ ((waiting.status ≡ pending_payment)
            × GivenUp 1 waiting
                (bytes "no")
                2
                gone
                market
                (cancel_order 2 1 false (bytes "no") market).1))
cancel_order_refunds_example =
    cancel_order_refunds 2 1 false (bytes "no") waiting market waiting_found cancel_run

pub market-IsSound : IsSound market
unfolding select
market-IsSound id o h = elim (Bool-cases (1 == id)) [
  | inl first ↦
      let o_is : waiting ≡ o = ground arith in
      subst (λ p. IsAccounted p × HasFeeWallet market p.asset) o_is
        (waiting-IsAccounted, fee_wallet)
  | inr later ↦ elim (Bool-cases (2 == id)) [
    | inl second ↦
        let o_is : paid ≡ o = ground arith in
        subst (λ p. IsAccounted p × HasFeeWallet market p.asset) o_is (paid-IsAccounted, fee_wallet)
    | inr neither ↦ absurd (ground arith)
  ]
]

abbrev calls : List OrderCall
calls =
    OrderCall.mark_paid 1000 2 1 true
    ∷ OrderCall.open_appeal 800000 2 1 (bytes "no answer")
    ∷ OrderCall.resolve 1 (bytes "refund")
    ∷ OrderCall.release 1 2
    ∷ []

perform_all_conserves_example :
    IsSound (perform_all calls market)
    × ((c : Asset) → held c (perform_all calls market) ≡ held c market)
perform_all_conserves_example = perform_all_conserves calls market market-IsSound

perform_all-Continues_example :
    (o' : Order) × (select 1 (perform_all calls market).orders ≡ some o') × Continues waiting o'
perform_all-Continues_example =
    perform_all-Continues calls market 1 waiting market-IsSound waiting_found
