-- ===== src/Ledger/Settlement.antt =====
-- SettleLockedDebit and SettleSpotTrade (internal/repo/ledger.go): what a fill takes from the
-- amounts that its orders reserved.
pub mod Laws
use dex_backend.Base.{ℕ, ◌+◌, ◌-◌, not, ◌&&◌, [], ◌∷◌, leb, ◌==◌}
use dex_backend.Result.{Result, Err}
use dex_backend.Text.Bytes.{Str}
use dex_backend.Asset.{Asset, normalize_asset}
use dex_backend.Schema.{LedgerDb, set_balance, set_locked}
use dex_backend.Tx.{Tx, ◌>>=◌, ◌>>◌, pure, given, check, transact}
use dex_backend.Ledger.{
  validate_positive_amount, lock_balance_tx, lock_balances_tx, update_balances, always,
}

unfoldable pub settle_locked_debit : ℕ → Str → Str → LedgerDb → Result (Unit {0}) × LedgerDb
settle_locked_debit user asset raw = transact do
  a ← given (normalize_asset asset)
  x ← given (validate_positive_amount raw)
  lock_balance_tx user
  rows ←
      update_balances user (λ r. leb x (r.balance a))
        (λ r. set_locked a (r.locked a - x) (set_balance a (r.balance a - x) r))
  check (not (rows == 0)) Err.insufficient_to_settle

-- One leg's reservation, consumed: both columns are tested and both are lowered.
consume : ℕ → Asset → ℕ → Err → Tx LedgerDb (Unit {0})
consume user a x e = do
  rows ←
      update_balances user (λ r. leb x (r.balance a) && leb x (r.locked a))
        (λ r. set_locked a (r.locked a - x) (set_balance a (r.balance a - x) r))
  check (rows == 1) e

-- What a leg receives. The source does not look at the number of rows here.
receive : ℕ → Asset → ℕ → Tx LedgerDb (Unit {0})
receive user a x = do
  rows ← update_balances user always (λ r. set_balance a (r.balance a + x) r)
  pure tt

settle_legs : ℕ → ℕ → Asset → Asset → ℕ → ℕ → ℕ → Tx LedgerDb (Unit {0})
unfolding consume receive
settle_legs buyer seller base quote base_qty buyer_quote seller_quote = do
  lock_balances_tx (buyer ∷ seller ∷ [])
  consume buyer quote buyer_quote Err.insufficient_buyer
  consume seller base base_qty Err.insufficient_seller
  receive buyer base base_qty
  receive seller quote seller_quote

unfoldable pub settle_spot_trade :
    ℕ → ℕ → Str → Str → Str → Str → Str → LedgerDb → Result (Unit {0}) × LedgerDb
unfolding settle_legs
settle_spot_trade buyer seller base quote base_qty_raw buyer_quote_raw seller_quote_raw =
    transact do
      check (not (buyer == seller)) Err.same_parties
      base_qty ← given (validate_positive_amount base_qty_raw)
      buyer_quote ← given (validate_positive_amount buyer_quote_raw)
      seller_quote ← given (validate_positive_amount seller_quote_raw)
      b ← given (normalize_asset base)
      q ← given (normalize_asset quote)
      settle_legs buyer seller b q base_qty buyer_quote seller_quote
