-- ===== src/P2p/Market/Funds.antt =====
-- Funding the P2P wallet and withdrawing an ad keep the books of the market (internal/repo/p2p.go).
use dex_backend.Base.{ℕ, ◌+◌, ◌-◌, ◌≡◌, ◌∙◌, refl, ap, sym, inl, inr, Bool, leb, arith}
use mathlib.Core.Path.{subst}
use dex_backend.Base.Key.{nat_key}
use dex_backend.Result.{Result, ok, Result-cases}
use dex_backend.Text.Bytes.{Str}
use dex_backend.Asset.{Asset}
use dex_backend.Asset.Laws.{asset_key, asset_eq_iff}
use dex_backend.Table.{update}
use dex_backend.Schema.{set_locked}
use dex_backend.Ledger.Cells.{total}
use dex_backend.Ledger.Cells.Writes.{OnCell, locked_write}
use dex_backend.Tx.Laws.{
  bind-ok, query-bind, found-bind, given-bind, check-bind, check-ok, transact-ok, transact-err,
}
use dex_backend.P2p.Schema.{
  P2pWallet, Side, buy, sell, FundingSource, p2p_wallet, main_wallet_legacy, Listing, P2pDb,
}
use dex_backend.P2p.{lock_wallet, update_wallets, update_listing, insert_wallet_entry}
use dex_backend.P2p.Holdings.{held}
use dex_backend.P2p.Funding.{fund_wallet_asset}
use dex_backend.P2p.Funding.Steps.{on_ledger-ok}
use dex_backend.P2p.Funding.Laws.{fund_wallet_asset_moves}
use dex_backend.P2p.Listings.{
  log_release, release_reserved, release_legacy, release_ad, withdraw, cancel_listing,
}
use dex_backend.P2p.Listings.Laws.{release_reserved-Freed, held-listings}
use dex_backend.P2p.Market.Calm.{release_ad-Calms}
use dex_backend.P2p.Market.Frames.{KeepsTerms, SameTerms, Framed-same, update_listing-Frames}

-- Main wallets and market hold as much together as before.
abbrev pub Balanced : P2pDb → P2pDb → Type 0
Balanced db db' = (c : Asset) → total c db'.ledger + held c db' ≡ total c db.ledger + held c db

pub fund-Balanced :
    (u : ℕ) (asset raw key : Str) (db : P2pDb)
    → Balanced db (fund_wallet_asset u asset raw key db).1
fund-Balanced u asset raw key db c =
    let run = fund_wallet_asset u asset raw key db in
    elim (Result-cases run.0) [
      | inl ((w, moved), done) ↦
          let (a, x, k, _, _, outcome) =
            fund_wallet_asset_moves u asset raw key db
              (ap (λ (r : Result (P2pWallet × Bool)). (r, run.1)) done) in
          elim outcome [
            | inl (_, _, funded) ↦ funded.conserves c
            | inr (_, replayed) ↦ ground (arith, replayed.balances.totals c, replayed.stays c)
          ]
      | inr (e, failed) ↦
          ap (λ (d : P2pDb). total c d.ledger + held c d)
            (unfold fund_wallet_asset in transact-err _ db failed)
    ]

unlock-OnCell :
    (u : ℕ) (a : Asset) (x : ℕ)
    → OnCell u a
        (λ r. leb x (r.locked a))
        (λ r. set_locked a (r.locked a - x) r)
        (λ b l. leb x l)
        (λ b l. b)
        (λ b l. l - x)
unlock-OnCell u a x = record {
  tests = λ r. refl;
  sets_balance = λ r c. ground (arith, asset_eq_iff a c);
  sets_locked = λ r c. refl;
}

release_legacy-Balanced :
    (seller : ℕ) (l : Listing) (db : P2pDb) {y : Unit {0}} {d : P2pDb}
    → release_legacy seller l db ≡ ok (y, d)
    → Balanced db d
unfolding release_legacy held
release_legacy-Balanced seller l db {d = d} h c =
    let (_, d1, h1, k1) = bind-ok _ _ db h in
    let (a, _, k2) = given-bind _ _ d1 k1 in
    let (n, d2, h2, k3) = bind-ok _ _ d1 k2 in
    let (_, same_tables) = check-ok _ _ d2 k3 in
    let (locks, d1_is) = on_ledger-ok _ db h1 in
    let (updates, d2_is) = on_ledger-ok _ d1 h2 in
    elim (locked_write seller a _ _ _ _ _ db.ledger (unlock-OnCell seller a l.remaining) locks
      updates) [
        | inl (_, _, same) ↦ ground (arith, same.totals c, d1_is, d2_is, same_tables)
        | inr (_, _, wrote) ↦ ground (arith, wrote.totals c, d1_is, d2_is, same_tables)
      ]

release_reserved-ledger :
    (seller id : ℕ) (l : Listing) (db : P2pDb) {y : Unit {0}} {d : P2pDb}
    → release_reserved seller id l db ≡ ok (y, d)
    → d.ledger ≡ db.ledger
unfolding release_reserved log_release insert_wallet_entry lock_wallet update_wallets
release_reserved-ledger seller id l db {d = d} h =
    let (x, _, k0) = given-bind _ _ db h in
    let (_, d1, h1, k1) = bind-ok _ _ db k0 in
    let (n, d2, h2, k2) = bind-ok _ _ d1 k1 in
    let (_, k3) = check-bind _ _ _ d2 k2 in
    let locked : d1.ledger ≡ db.ledger = ground arith in
    let updated : d2.ledger ≡ d1.ledger = ground arith in
    let logged : d.ledger ≡ d2.ledger = ground arith in logged ∙ updated ∙ locked

release_ad-Balanced :
    (seller id : ℕ) (l : Listing) (side : Side) (source : FundingSource) (db : P2pDb) {y : Unit {0}}
    {d : P2pDb}
    → release_ad seller id l side source db ≡ ok (y, d)
    → Balanced db d
unfolding release_ad
release_ad-Balanced seller id l buy source db h c =
    ap (λ (d : P2pDb). total c d.ledger + held c d) (ground arith)
release_ad-Balanced seller id l sell p2p_wallet db {d = d} h c =
    let (_, _, freed, _) = release_reserved-Freed seller id l db {db' = d} h in
    ground (arith, freed.conserves c, ap (total c) (release_reserved-ledger seller id l db h))
release_ad-Balanced seller id l sell main_wallet_legacy db h c =
    release_legacy-Balanced seller l db h c

-- An ad that is withdrawn: orders and fee wallets stay, and so do the terms of all ads.
pub record Withdrawn (db db' : P2pDb) : Type 0 where
  pub orders : db'.orders ≡ db.orders
  pub admin_wallets : db'.admin_wallets ≡ db.admin_wallets
  pub terms : KeepsTerms db.listings db'.listings
  pub balanced : Balanced db db'

still_open : {db db' : P2pDb} → db' ≡ db → Withdrawn db db'
still_open {db} same = subst (Withdrawn db) (sym same) (record {
  orders = refl;
  admin_wallets = refl;
  terms = (Framed-same {db = db} {db' = db} refl refl refl).terms;
  balanced = λ c. refl;
})

withdraw_keeps : (l : Listing) → SameTerms l (withdraw l)
withdraw_keeps l = record { asset = refl; side = refl; funding_source = refl; fee_model = refl }

withdraw_end :
    (id : ℕ) (d : P2pDb) {y : Unit {0}} {e : P2pDb}
    → update_listing id withdraw d ≡ ok (y, e)
    → e ≡ record d { listings = update id withdraw d.listings }
unfolding update_listing
withdraw_end id d h = ground arith

pub cancel_listing-Withdrawn :
    (seller id : ℕ) (db : P2pDb) → Withdrawn db (cancel_listing seller id db).1
unfolding cancel_listing
cancel_listing-Withdrawn seller id db =
    let run = cancel_listing seller id db in
    elim (Result-cases run.0) [
      | inl (y, done) ↦
          let (l, _, k0) = found-bind _ _ _ db (
            query-bind _ _ db
              (transact-ok _ db (ap (λ (r : Result (Unit {0})). (r, run.1)) done))) in
          let (z, d, released, k1) = bind-ok _ _ db k0 in
          let ends = withdraw_end id d k1 in
          let calm = release_ad-Calms seller id l l.side l.funding_source db z d released in
          let moved = release_ad-Balanced seller id l l.side l.funding_source db released in
          let f = update_listing-Frames id withdraw withdraw_keeps d y run.1 k1 in
          record {
            orders = ap (λ (e : P2pDb). e.orders) ends ∙ calm.orders;
            admin_wallets = ap (λ (e : P2pDb). e.admin_wallets) ends ∙ calm.admin_wallets;
            terms = subst (λ ls. KeepsTerms ls run.1.listings) calm.listings f.terms;
            balanced = λ c.
                ap (λ (e : P2pDb). total c e.ledger + held c e) ends
                ∙ ap (λ n. total c d.ledger + n) (held-listings c d _)
                ∙ moved c;
          }
      | inr (e, failed) ↦ still_open (transact-err _ db failed)
    ]
