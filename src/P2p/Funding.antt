-- ===== src/P2p/Funding.antt =====
-- FundWalletAsset (internal/repo/p2p.go): BIUSD from the main wallet into the P2P wallet.
pub mod Steps
pub mod Laws
use dex_backend.Base.{
  ℕ, ◌+◌, ◌-◌, ◌&&◌, Bool, true, false, Option, none, some, List, [], ◌∷◌, ltb, leb, ◌==◌, length,
  if◌then◌else◌,
}
use dex_backend.Base.Key.{nat_key, pair_key}
use dex_backend.Result.{Result, ok, err, Err}
use dex_backend.Text.Bytes.{Str, bytes, str_eq, to_upper, trim_space}
use dex_backend.Text.Decimal.{string}
use dex_backend.Asset.{Asset, asset_eq, biusd}
use dex_backend.Asset.Laws.{asset_key}
use dex_backend.Table.{select}
use dex_backend.Schema.{LedgerDb, set_balance}
use dex_backend.Tx.{Tx, ◌>>=◌, ◌>>◌, pure, query, given, found, check, transact}
use dex_backend.Ledger.{
  validate_positive_amount, lock_balance_tx, update_balances, pending_withdrawal_hold,
}
use dex_backend.P2p.Schema.{P2pWallet, EntryKind, main_to_p2p, WalletEntry, P2pDb}
use dex_backend.P2p.{lock_wallet, update_wallets, any_wallet, insert_wallet_entry}

with_ledger : {A : Type 0} → Result (A × LedgerDb) → P2pDb → Result (A × P2pDb)
with_ledger (ok (a, l)) db = ok (a, record db { ledger = l })
with_ledger (err e) db = err e

-- A statement on the ledger's tables, in a transaction of the market.
unfoldable pub on_ledger : {A : Type 0} → Tx LedgerDb A → Tx P2pDb A
unfolding with_ledger
on_ledger m db = with_ledger (m db.ledger) db

unfoldable pub normalize_p2p_asset : Str → Result Asset
normalize_p2p_asset asset =
    if str_eq (to_upper (trim_space asset)) (bytes "BIUSD") then ok biusd else err Err.not_biusd

check_key : Str → Bool → Result Str
check_key key required =
    if required && str_eq key []
    then err Err.key_required
    else if ltb 128 (length key)
    then err Err.key_too_long
    else ok key

unfoldable pub validate_idempotency_key : Str → Bool → Result Str
unfolding check_key
validate_idempotency_key key required = check_key (trim_space key) required

abbrev pub is_funding : EntryKind → Bool
is_funding main_to_p2p = true
is_funding _ = false

abbrev pub has_key : Str → Option Str → Bool
has_key key none = false
has_key key (some k) = str_eq k key

-- SELECT … FROM p2p_wallet_entries WHERE user_id = $1 AND kind = 'main_to_p2p' AND idempotency_key = $2
unfoldable pub prior_funding : ℕ → Str → List WalletEntry → Option WalletEntry
prior_funding user key [] = none
prior_funding user key (e ∷ es) =
    if e.user_id == user && is_funding e.kind && has_key key e.idempotency_key
    then some e
    else prior_funding user key es

-- `walletTx`
unfoldable pub wallet_tx : ℕ → Asset → Tx P2pDb P2pWallet
wallet_tx user a = do row ← query (λ db. select (user, a) db.wallets); found row Err.no_rows

-- The key was used: the same request again moves nothing. The amounts are compared as texts, the
-- stored one as PostgreSQL prints it.
unfoldable pub replay : ℕ → Asset → Str → WalletEntry → Tx P2pDb (P2pWallet × Bool)
unfolding wallet_tx
replay user a raw e = do
  check (asset_eq e.asset a && str_eq (string e.amount) raw) Err.key_reused
  w ← wallet_tx user a
  pure (w, false)

unfoldable pub move_funds : ℕ → Asset → ℕ → Str → Tx P2pDb (P2pWallet × Bool)
unfolding wallet_tx
move_funds user a x key = do
  hold ← query (λ db. pending_withdrawal_hold user a db.ledger)
  rows ← on_ledger (
      update_balances user (λ r. leb (x + r.locked a + hold) (r.balance a))
        (λ r. set_balance a (r.balance a - x) r))
  check (rows == 1) Err.insufficient_main
  n ← update_wallets user a any_wallet (λ w. record w { available = w.available + x })
  insert_wallet_entry (record {
    user_id = user;
    listing_id = none;
    order_id = none;
    kind = main_to_p2p;
    asset = a;
    amount = x;
    idempotency_key = some key;
  })
  w ← wallet_tx user a
  pure (w, true)

unfoldable pub fund_or_replay :
    ℕ → Asset → ℕ → Str → Str → Option WalletEntry → Tx P2pDb (P2pWallet × Bool)
unfolding replay move_funds
fund_or_replay user a x raw key (some e) = replay user a raw e
fund_or_replay user a x raw key none = move_funds user a x key

unfoldable pub fund_wallet_asset : ℕ → Str → Str → Str → P2pDb → Result (P2pWallet × Bool) × P2pDb
unfolding fund_or_replay
fund_wallet_asset user asset raw idempotency_key = transact do
  a ← given (normalize_p2p_asset asset)
  x ← given (validate_positive_amount raw)
  key ← given (validate_idempotency_key idempotency_key true)
  on_ledger (lock_balance_tx user)
  lock_wallet user a
  prior ← query (λ db. prior_funding user key db.wallet_entries)
  fund_or_replay user a x raw key prior
