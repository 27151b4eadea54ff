-- ===== src/P2p/Listings/Laws.antt =====
-- An ad that is cancelled frees what it reserved.
use dex_backend.Base.{
  ℕ, ◌+◌, ◌-◌, ◌*◌, ◌/◌, ◌<◌, ◌≤◌, ◌≡◌, ◌∙◌, refl, sym, ◌&&◌, inl, inr, true, Option, none, some,
  ◌==◌, leb, leb→le, ==_iff, arith, Bool-cases, if◌then◌else◌,
}
use mathlib.Core.Path.{subst}
use dex_backend.Base.Key.{nat_key}
use dex_backend.Result.{ok, Result-cases}
use dex_backend.Asset.{Asset, asset_eq}
use dex_backend.Asset.Laws.{asset_eq_iff, asset_key}
use dex_backend.Table.{Table, select, update}
use dex_backend.Tx.{◌>>◌}
use dex_backend.Tx.Laws.{bind-ok, query-bind, found-bind, given-bind, check-bind, transact-ok}
use dex_backend.P2p.Schema.{
  P2pWallet, Side, sell, FundingSource, p2p_wallet, FeeModel, biusd_1pct_each, legacy_fiat,
  withdrawn, Listing, P2pDb,
}
use dex_backend.P2p.{update_wallets, update_listing, insert_wallet_entry}
use dex_backend.P2p.Holdings.{wallet_of, held, Set, lock_wallet-Locked, Locked-Set_if}
use dex_backend.Text.Decimal.{string}
use dex_backend.Text.Decimal.RoundTrip.{set_string-string}
use dex_backend.P2p.Fees.{p2p_biusd_settlement}
use dex_backend.P2p.Fees.Laws.{debit_lem}
use dex_backend.P2p.Listings.{
  is_active, debit_of, own_active, release_amount, log_release, release_reserved, release_ad,
  withdraw, cancel_listing,
}

-- What an ad reserves for `n`: under the fee of one per cent on each side also the seller's fee, which
-- is the hundredth of `n`, rounded down.
abbrev pub IsReserved : FeeModel → ℕ → ℕ → Type 0
IsReserved biusd_1pct_each n x = (fee : ℕ) × (fee * 100 ≤ n) × (n < fee * 100 + 100) × (x ≡ n + fee)
IsReserved legacy_fiat n x = x ≡ n

release_amount-IsReserved : (m : FeeModel) (n x : ℕ) → release_amount m n ≡ ok x → IsReserved m n x
unfolding release_amount debit_of
release_amount-IsReserved legacy_fiat n x h = ground arith
release_amount-IsReserved biusd_1pct_each n x h =
    elim (Result-cases (p2p_biusd_settlement (string n))) [
      | inl ((fee, credit, debit), settled) ↦
          let total = debit_lem (string n) n (set_string-string n) settled in
          let x_is : debit ≡ x = ground arith in
          (n / 100, omega arith, omega arith, sym x_is ∙ total)
      | inr (e, refused) ↦ absurd (ground arith)
    ]

-- The user's reserved amount `x` is available again.
abbrev free : ℕ → P2pWallet → P2pWallet
free x w = record w { reserved = w.reserved - x; available = w.available + x }

pub record Freed (u : ℕ) (a : Asset) (x : ℕ) (db db' : P2pDb) : Type 0 where
  pub covered : x ≤ (wallet_of db.wallets u a).reserved
  pub wallets :
      (v : ℕ) (c : Asset)
      → wallet_of db'.wallets v c ≡ (
          let w = wallet_of db.wallets v c in
          if u == v && asset_eq a c
          then record w { reserved = w.reserved - x; available = w.available + x }
          else w)
  pub conserves : (c : Asset) → held c db' ≡ held c db
  pub orders : db'.orders ≡ db.orders

Freed-intro :
    (u : ℕ) (a : Asset) (x : ℕ) (db d db' : P2pDb)
    → leb x (wallet_of db.wallets u a).reserved ≡ true
    → Set u a (free x) db d
    → db'.wallets ≡ d.wallets
    → db'.admin_wallets ≡ db.admin_wallets
    → db'.orders ≡ db.orders
    → Freed u a x db db'
Freed-intro u a x db d db' covered set wallets fees orders = record {
  covered = leb→le _ _ covered;
  wallets = λ v c. ground (arith, set.wallets v c, ==_iff u v, asset_eq_iff a c);
  conserves = λ c. unfold held in ground (arith, set.sums c, leb→le _ _ covered);
  orders = orders;
}

logged-Kept :
    (seller id : ℕ) (l : Listing) (x : ℕ) (db : P2pDb) {y : Unit {0}} {db' : P2pDb}
    → log_release seller id l x db ≡ ok (y, db')
    → db' ≡ record db { wallet_entries = db'.wallet_entries }
unfolding log_release insert_wallet_entry
logged-Kept seller id l x db h = elim (Bool-cases (l.remaining == 0)) [
  | inl nothing ↦ ground arith
  | inr something ↦ ground arith
]

pub release_reserved-Freed :
    (seller id : ℕ) (l : Listing) (db : P2pDb) {y : Unit {0}} {db' : P2pDb}
    → release_reserved seller id l db ≡ ok (y, db')
    → (x : ℕ) × (release_amount l.fee_model l.remaining ≡ ok x)
      × Freed seller l.asset x db db'
      × (db'.listings ≡ db.listings)
unfolding release_reserved insert_wallet_entry
release_reserved-Freed seller id l db {db' = db'} h =
    let (x, amount, k0) = given-bind _ _ db h in
    let (_, d1, h1, k1) = bind-ok _ _ db k0 in
    let (n, d2, h2, k2) = bind-ok _ _ d1 k1 in
    let (one_row, k3) = check-bind _ _ _ d2 k2 in
    let one : n ≡ 1 = ground (arith, ==_iff n 1) in
    let run : update_wallets seller l.asset (λ w. leb x w.reserved) (free x) d1 ≡ ok (1, d2) =
      ground arith in
    let (covered, set) =
      Locked-Set_if seller l.asset _ (free x) db (lock_wallet-Locked seller l.asset db h1) run in
    let kept = logged-Kept seller id l x d2 k3 in
    (
      x,
      amount,
      Freed-intro seller l.asset x db d2 db' covered set (ground (arith, kept))
          (ground (arith, kept, set.rest)) (ground (arith, kept, set.rest)),
      ground (arith, kept, set.rest),
    )

own_active-ok :
    (seller : ℕ) (o : Option Listing) {l : Listing}
    → own_active seller o ≡ some l
    → (o ≡ some l) × (l.seller_id ≡ seller) × (is_active l.status ≡ true)
unfolding own_active
own_active-ok seller none h = cc
own_active-ok seller (some k) h = elim (Bool-cases (k.seller_id == seller && is_active k.status)) [
  | inl passes ↦ ground (arith, ==_iff k.seller_id seller)
  | inr fails ↦ ground arith
]

release_ad_sell :
    (seller id : ℕ) (l : Listing) (side : Side) (source : FundingSource) (db : P2pDb) {y : Unit {0}}
    {db' : P2pDb}
    → side ≡ sell
    → source ≡ p2p_wallet
    → release_ad seller id l side source db ≡ ok (y, db')
    → release_reserved seller id l db ≡ ok (y, db')
unfolding release_ad
release_ad_sell seller id l sell p2p_wallet db is_sell is_p2p h = h
release_ad_sell seller id l _ _ db is_sell is_p2p h = cc

first_step :
    (seller id : ℕ) (l : Listing) (db : P2pDb) {y : Unit {0}} {db' : P2pDb}
    → (release_ad seller id l l.side l.funding_source >> update_listing id withdraw) db
      ≡ ok (y, db')
    → (d : P2pDb) × (release_ad seller id l l.side l.funding_source db ≡ ok (tt, d))
      × (db' ≡ record d { listings = update id withdraw d.listings })
unfolding update_listing
first_step seller id l db h = let (_, d, h0, k0) = bind-ok _ _ db h in (d, h0, ground arith)

pub held-listings :
    (c : Asset) (d : P2pDb) (ls : Table ℕ Listing) → held c (record d { listings = ls }) ≡ held c d
unfolding held
held-listings c d ls = refl

Freed-listings :
    (u : ℕ) (a : Asset) (x : ℕ) (db d : P2pDb) {ls : Table ℕ Listing}
    → Freed u a x db d
    → Freed u a x db (record d { listings = ls })
Freed-listings u a x db d freed = record {
  covered = freed.covered;
  wallets = freed.wallets;
  conserves = λ c. held-listings c d _ ∙ freed.conserves c;
  orders = freed.orders;
}

-- A sell ad funded from the P2P wallet that is cancelled was active, and its seller's. What remains of
-- it, and under the fee of one per cent on each side also the hundredth of that, rounded down, was
-- reserved and is available again; no other wallet and no order changes, what the market holds of
-- every asset is the same, and the ad is withdrawn.
pub cancel_listing_frees :
    (seller id : ℕ) (l : Listing) (db : P2pDb) {db' : P2pDb}
    → select id db.listings ≡ some l
    → l.side ≡ sell
    → l.funding_source ≡ p2p_wallet
    → cancel_listing seller id db ≡ (ok tt, db')
    → (l.seller_id ≡ seller)
      × (is_active l.status ≡ true)
      × (x : ℕ) × IsReserved l.fee_model l.remaining x
      × Freed seller l.asset x db db'
      × (db'.listings ≡ update id (λ l. record l { status = withdrawn }) db.listings)
unfolding cancel_listing update_listing
cancel_listing_frees seller id l db {db' = db'} at_id is_sell is_p2p h =
    let (k, own, k0) = found-bind _ _ _ db (query-bind _ _ db (transact-ok _ db h)) in
    let (d, run, ends) = first_step seller id k db k0 in
    let (there, by, open_ad) = own_active-ok seller _ own in
    let k_is : k ≡ l = ground arith in
    let run' : release_reserved seller id l db ≡ ok (tt, d) =
      release_ad_sell seller id l l.side l.funding_source db is_sell is_p2p
        (ground (arith, k_is)) in
    let (x, amount, freed, listings) = release_reserved-Freed seller id l db run' in
    (
      ground arith,
      ground arith,
      x,
      release_amount-IsReserved l.fee_model l.remaining x amount,
      subst (Freed seller l.asset x db) {x = record d { listings = update id withdraw d.listings }}
          (sym ends) (Freed-listings seller l.asset x db d freed),
      ground arith,
    )
