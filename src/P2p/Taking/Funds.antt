-- ===== src/P2p/Taking/Funds.antt =====
-- Where the escrow of a new order comes from.
use dex_backend.Base.{
  ℕ, ◌-◌, ◌≤◌, ◌≡◌, refl, Bool, true, ◌&&◌, leb, leb→le, ==_iff, arith, inl, inr,
}
use mathlib.Core.Path.{subst}
use dex_backend.Base.Key.{nat_key, pair_key}
use dex_backend.Result.{ok, Err}
use dex_backend.Asset.{Asset}
use dex_backend.Asset.Laws.{asset_key, normalize_asset-name}
use dex_backend.Schema.{set_balance, set_locked}
use dex_backend.Tx.Laws.{bind-ok, given-bind, check-ok}
use dex_backend.Ledger.{update_balances}
use dex_backend.Ledger.Cells.{balance_of, locked_of, Wrote}
use dex_backend.Ledger.Cells.Writes.{OnCell, locked_write}
use dex_backend.P2p.Schema.{
  P2pWallet, Side, buy, sell, FundingSource, p2p_wallet, main_wallet_legacy, P2pDb,
}
use dex_backend.P2p.{update_wallets}
use dex_backend.P2p.Holdings.{wallet_of, Set, lock_wallet-Locked, Locked-Set_if}
use dex_backend.P2p.Funding.Steps.{on_ledger-ok}
use dex_backend.P2p.Taking.{take_available, take_reserved, from_wallet, from_main, take_funds}

-- The seller `u` had the debit, or the locked amount `x` of the main wallet, and no longer has it.
-- Nothing else of the wallets, the main balances and the locks has changed.
pub data Paid (u : ℕ) (a : Asset) (x debit : ℕ) (db db' : P2pDb)
    : Side → FundingSource → Type 0 where
  by_taker :
      (source : FundingSource)
      → debit ≤ (wallet_of db.wallets u a).available
      → Set u a (take_available debit) db db'
      → Paid u a x debit db db' buy source
  by_ad :
      debit ≤ (wallet_of db.wallets u a).reserved
      → Set u a (take_reserved debit) db db'
      → Paid u a x debit db db' sell p2p_wallet
  by_main :
      x ≤ balance_of db.ledger u a
      → x ≤ locked_of db.ledger u a
      → Wrote u a (balance_of db.ledger u a - x) (locked_of db.ledger u a - x) db.ledger db'.ledger
      → db' ≡ record db { ledger = db'.ledger }
      → Paid u a x debit db db' sell main_wallet_legacy

from_wallet-Set :
    (u : ℕ) (a : Asset) (where_ : P2pWallet → Bool) (set : P2pWallet → P2pWallet) (e : Err)
    (db : P2pDb) {y : Unit {0}} {d : P2pDb}
    → from_wallet u a where_ set e db ≡ ok (y, d)
    → (where_ (wallet_of db.wallets u a) ≡ true) × Set u a set db d
unfolding from_wallet
from_wallet-Set u a where_ set e db {d = d} h =
    let (_, d1, h1, k1) = bind-ok _ _ db h in
    let (n, d2, h2, k2) = bind-ok _ _ d1 k1 in
    let (one_row, d_is) = check-ok _ _ d2 k2 in
    let run : update_wallets u a where_ set d1 ≡ ok (1, d) = ground (arith, ==_iff n 1) in
    Locked-Set_if u a where_ set db (lock_wallet-Locked u a db h1) run

take-OnCell :
    (u : ℕ) (a : Asset) (x : ℕ)
    → OnCell u a
        (λ r. leb x (r.balance a) && leb x (r.locked a))
        (λ r. set_locked a (r.locked a - x) (set_balance a (r.balance a - x) r))
        (λ b l. leb x b && leb x l)
        (λ b l. b - x)
        (λ b l. l - x)
take-OnCell u a x = record {
  tests = λ r. refl;
  sets_balance = λ r c. refl;
  sets_locked = λ r c. refl;
}

from_main-Wrote :
    (u : ℕ) (a : Asset) (x : ℕ) (db : P2pDb) {y : Unit {0}} {d : P2pDb}
    → from_main u a x db ≡ ok (y, d)
    → (x ≤ balance_of db.ledger u a)
      × (x ≤ locked_of db.ledger u a)
      × Wrote u a (balance_of db.ledger u a - x) (locked_of db.ledger u a - x) db.ledger d.ledger
      × (d ≡ record db { ledger = d.ledger })
unfolding from_main
from_main-Wrote u a x db {d = d} h =
    let (_, d1, h1, k1) = bind-ok _ _ db h in
    let (b, read, k2) = given-bind _ _ d1 k1 in
    let (n, d2, h2, k3) = bind-ok _ _ d1 k2 in
    let (one_row, d_is) = check-ok _ _ d2 k3 in
    let b_is : b ≡ a = ground (arith, normalize_asset-name a) in
    let (locks, d1_is) = on_ledger-ok _ db h1 in
    let (updates, d2_is) = on_ledger-ok _ d1 h2 in
    let run : update_balances u (λ r. leb x (r.balance a) && leb x (r.locked a))
          (λ r. set_locked a (r.locked a - x) (set_balance a (r.balance a - x) r)) d1.ledger
        ≡ ok (n, d.ledger) =
      subst
        (λ c.
          update_balances u (λ r. leb x (r.balance c) && leb x (r.locked c))
            (λ r. set_locked c (r.locked c - x) (set_balance c (r.balance c - x) r)) d1.ledger
          ≡ ok (n, d.ledger))
        b_is (ground arith) in
    elim (locked_write u a _ _ _ _ _ db.ledger (take-OnCell u a x) locks run) [
      | inl (no_row, _, _) ↦ absurd (ground (arith, ==_iff n 1))
      | inr (_, covered, wrote) ↦ (ground arith, ground arith, wrote, ground arith)
    ]

pub take_funds-Paid :
    (side : Side) (source : FundingSource) (u : ℕ) (a : Asset) (x debit : ℕ) (db : P2pDb)
    {y : Unit {0}} {d : P2pDb}
    → take_funds side source u a x debit db ≡ ok (y, d)
    → Paid u a x debit db d side source
unfolding take_funds
take_funds-Paid buy source u a x debit db h =
    let (covered, set) = from_wallet-Set u a _ _ _ db h in
    Paid.by_taker source (leb→le _ _ covered) set
take_funds-Paid sell p2p_wallet u a x debit db h =
    let (covered, set) = from_wallet-Set u a _ _ _ db h in Paid.by_ad (leb→le _ _ covered) set
take_funds-Paid sell main_wallet_legacy u a x debit db h =
    let (balance, lock, wrote, same) = from_main-Wrote u a x db h in
    Paid.by_main balance lock wrote same

-- Nothing but wallets and main balances has changed.
pub Paid_rest :
    (u : ℕ) (a : Asset) (x debit : ℕ) (db d : P2pDb) {side : Side} {source : FundingSource}
    → Paid u a x debit db d side source
    → d ≡ record db { ledger = d.ledger; wallets = d.wallets }
Paid_rest u a x debit db d (Paid.by_taker source covered set) = ground (arith, set.rest)
Paid_rest u a x debit db d (Paid.by_ad covered set) = ground (arith, set.rest)
Paid_rest u a x debit db d (Paid.by_main balance lock wrote same) = ground arith
