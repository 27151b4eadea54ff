-- ===== src/P2p/Listings.antt =====
-- CancelListing (internal/repo/p2p.go).
pub mod Laws
use dex_backend.Base.{
  ℕ, ◌+◌, ◌-◌, ◌&&◌, Bool, true, false, Option, none, some, leb, ◌==◌, if◌then◌else◌,
}
use dex_backend.Base.Key.{nat_key}
use dex_backend.Result.{Result, ok, err, Err}
use dex_backend.Text.Decimal.{string}
use dex_backend.Asset.{name, normalize_asset}
use dex_backend.Table.{select}
use dex_backend.Schema.{set_locked}
use dex_backend.Tx.{Tx, ◌>>=◌, ◌>>◌, pure, query, given, found, check, transact}
use dex_backend.Ledger.{lock_balance_tx, update_balances}
use dex_backend.P2p.Schema.{
  P2pWallet, Side, buy, sell, FundingSource, p2p_wallet, main_wallet_legacy, FeeModel, legacy_fiat,
  biusd_1pct_each, ListingStatus, active, withdrawn, Listing, EntryKind, listing_release,
  WalletEntry, P2pDb,
}
use dex_backend.P2p.{lock_wallet, update_wallets, update_listing, insert_wallet_entry}
use dex_backend.P2p.Fees.{p2p_biusd_settlement}
use dex_backend.P2p.Funding.{on_ledger}

abbrev pub is_active : ListingStatus → Bool
is_active active = true
is_active _ = false

-- … WHERE id = $1 AND seller_id = $2 AND status = 'ACTIVE'
unfoldable pub own_active : ℕ → Option Listing → Option Listing
own_active seller none = none
own_active seller (some l) = if l.seller_id == seller && is_active l.status then some l else none

debit_of : Result (ℕ × ℕ × ℕ) → Result ℕ
debit_of (ok (fee, credit, debit)) = ok debit
debit_of (err e) = err e

-- `releaseRaw`
unfoldable pub release_amount : FeeModel → ℕ → Result ℕ
unfolding debit_of
release_amount biusd_1pct_each remaining = debit_of (p2p_biusd_settlement (string remaining))
release_amount legacy_fiat remaining = ok remaining

unfoldable pub log_release : ℕ → ℕ → Listing → ℕ → Tx P2pDb (Unit {0})
log_release seller id l x =
    if l.remaining == 0
    then pure tt
    else insert_wallet_entry (record {
      user_id = seller;
      listing_id = some id;
      order_id = none;
      kind = listing_release;
      asset = l.asset;
      amount = x;
      idempotency_key = none;
    })

unfoldable pub release_reserved : ℕ → ℕ → Listing → Tx P2pDb (Unit {0})
unfolding log_release
release_reserved seller id l = do
  x ← given (release_amount l.fee_model l.remaining)
  lock_wallet seller l.asset
  rows ←
      update_wallets seller l.asset (λ w. leb x w.reserved)
        (λ w. record w { reserved = w.reserved - x; available = w.available + x })
  check (rows == 1) Err.bad_reservation
  log_release seller id l x

unfoldable pub release_legacy : ℕ → Listing → Tx P2pDb (Unit {0})
release_legacy seller l = do
  on_ledger (lock_balance_tx seller)
  a ← given (normalize_asset (name l.asset))
  rows ← on_ledger (
      update_balances seller (λ r. leb l.remaining (r.locked a))
        (λ r. set_locked a (r.locked a - l.remaining) r))
  check (rows == 1) Err.bad_reservation

-- Buy ads do not reserve the creator's BIUSD.
unfoldable pub release_ad : ℕ → ℕ → Listing → Side → FundingSource → Tx P2pDb (Unit {0})
unfolding release_reserved release_legacy
release_ad seller id l buy source = pure tt
release_ad seller id l sell p2p_wallet = release_reserved seller id l
release_ad seller id l sell main_wallet_legacy = release_legacy seller l

abbrev pub withdraw : Listing → Listing
withdraw l = record l { status = withdrawn }

unfoldable pub cancel_listing : ℕ → ℕ → P2pDb → Result (Unit {0}) × P2pDb
unfolding release_ad
cancel_listing seller id = transact do
  row ← query (λ db. own_active seller (select id db.listings))
  l ← found row Err.not_found
  release_ad seller id l l.side l.funding_source
  update_listing id withdraw
