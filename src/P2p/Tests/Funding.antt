-- ===== src/P2p/Tests/Funding.antt =====
-- The buyer of the two orders funds the P2P wallet, twice with one key.
use dex_backend.Base.{ℕ, ◌≡◌, refl, ◌⊎◌, Bool, true, false, none, some}
use dex_backend.Base.Key.{nat_key, pair_key}
use dex_backend.Result.{Result, ok, err, Err}
use dex_backend.Text.Bytes.{Str, bytes, trim_space}
use dex_backend.Text.Decimal.{set_string, string}
use dex_backend.Asset.{Asset, asset_eq}
use dex_backend.Asset.Laws.{asset_key}
use dex_backend.Table.{select, insert, update, sum}
use dex_backend.Tx.{transact, ◌>>=◌}
use dex_backend.P2p.Schema.{P2pWallet, P2pDb}
use dex_backend.P2p.{lock_wallet, update_wallets, insert_wallet_entry}
use dex_backend.P2p.Holdings.{wallet_of}
use dex_backend.P2p.Funding.{
  on_ledger, normalize_p2p_asset, validate_idempotency_key, prior_funding, fund_wallet_asset,
}
use dex_backend.P2p.Funding.Steps.{Funded}
use dex_backend.P2p.Funding.Laws.{
  Requests, Replayed, fund_wallet_asset_moves, fund_wallet_asset_once,
}
use dex_backend.Ledger.{
  validate_positive_amount, lock_balance_tx, update_balances, pending_withdrawal_hold,
}
use dex_backend.Ledger.Cells.{Same}
use dex_backend.P2p.Tests.{market}

abbrev fund : Str → Str → P2pDb → Result (P2pWallet × Bool) × P2pDb
fund amount key = fund_wallet_asset 2 (bytes "biusd") amount key

abbrev after_funding : P2pDb
after_funding = (fund (bytes "900") (bytes "k1") market).1

fund_run :
    fund (bytes "900") (bytes "k1") market
    ≡ (ok (record { available = 900; reserved = 0 }, true), after_funding)
unfolding fund_wallet_asset on_ledger normalize_p2p_asset validate_idempotency_key prior_funding
    trim_space validate_positive_amount set_string transact ◌>>=◌ select update insert
    lock_balance_tx update_balances pending_withdrawal_hold sum lock_wallet update_wallets
    insert_wallet_entry asset_eq
fund_run = refl

fund_same :
    fund (bytes "900") (bytes "k1") after_funding
    ≡ (ok (record { available = 900; reserved = 0 }, false), after_funding)
unfolding fund_wallet_asset on_ledger normalize_p2p_asset validate_idempotency_key prior_funding
    trim_space validate_positive_amount set_string string transact ◌>>=◌ select update insert
    lock_balance_tx update_balances pending_withdrawal_hold sum lock_wallet update_wallets
    insert_wallet_entry asset_eq
fund_same = refl

-- The same amount, written with a zero in front, is taken for another request.
fund_again_padded :
    fund (bytes "0900") (bytes "k1") after_funding ≡ (err Err.key_reused, after_funding)
unfolding fund_wallet_asset on_ledger normalize_p2p_asset validate_idempotency_key prior_funding
    trim_space validate_positive_amount set_string string transact ◌>>=◌ select update insert
    lock_balance_tx update_balances pending_withdrawal_hold sum lock_wallet update_wallets
    insert_wallet_entry asset_eq
fund_again_padded = refl

fund_wallet_asset_moves_example :
    (a : Asset) × (x : ℕ) × (key : Str) × Requests
      (bytes "biusd")
      (bytes "900")
      (bytes "k1")
      a
      x
      key
    × (select (2, a) after_funding.wallets ≡ some (record { available = 900; reserved = 0 }))
    × (((true ≡ true)
          × (prior_funding 2 key market.wallet_entries ≡ none)
          × Funded 2 a x key market after_funding)
        ⊎ ((true ≡ false) × Replayed 2 (bytes "900") key a market after_funding))
fund_wallet_asset_moves_example =
    fund_wallet_asset_moves 2 (bytes "biusd") (bytes "900") (bytes "k1") market fund_run

fund_wallet_asset_once_example :
    (false ≡ false)
    × Same after_funding.ledger after_funding.ledger
    × ((v : ℕ) (c : Asset)
        → wallet_of after_funding.wallets v c ≡ wallet_of after_funding.wallets v c)
fund_wallet_asset_once_example =
    fund_wallet_asset_once 2 (bytes "biusd") (bytes "900") (bytes "biusd") (bytes "900")
      (bytes "k1") market fund_run fund_same
