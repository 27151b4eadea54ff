-- ===== src/P2p/Release/Collect.antt =====
-- The fees of a release go to the fee wallet.
use dex_backend.Base.{
  ℕ, ◌+◌, ◌≡◌, refl, inl, inr, true, some, [], ◌∷◌, ltb, arith, Option-cases, Bool-cases,
  if◌then◌else◌,
}
use dex_backend.Base.Key.{nat_key}
use dex_backend.Result.{ok}
use dex_backend.Asset.{Asset, asset_eq}
use dex_backend.Asset.Laws.{asset_eq_iff, asset_key}
use dex_backend.Table.{Table, select, update}
use dex_backend.Table.Laws.{select-update_self, select-update_ne}
use dex_backend.Tx.Laws.{bind-ok, query-bind, check-bind}
use dex_backend.Ledger.{is_some}
use dex_backend.P2p.Schema.{Order, P2pDb}
use dex_backend.P2p.Release.{credit_admin, insert_admin_entry, credit_fees, collect_fees}
use dex_backend.P2p.Holdings.{fees_of}
use dex_backend.Base.{[], ◌∷◌}

-- The fee wallet has a row for the asset, as the schema's INSERT makes for BIUSD.
abbrev pub HasFeeWallet : P2pDb → Asset → Type 0
HasFeeWallet db a = is_some (select a db.admin_wallets) ≡ true

fees_of-update :
    (fs : Table Asset ℕ) (a c : Asset) (x : ℕ)
    → is_some (select a fs) ≡ true
    → fees_of (update a (λ f. f + x) fs) c ≡ fees_of fs c + (if asset_eq a c then x else 0)
unfolding fees_of
fees_of-update fs a c x has = elim (Option-cases (select a fs)) [
  | inl absent ↦ absurd (ground arith)
  | inr (f, present) ↦ elim (Bool-cases (asset_eq a c)) [
    | inl here ↦
        let a_is : a ≡ c = ground (arith, asset_eq_iff a c) in
        let set_there : select c (update a (λ f. f + x) fs) ≡ some (f + x) =
          rw (← a_is) (select-update_self a (λ f. f + x) fs f present) in
        let was : select c fs ≡ some f = rw (← a_is) present in ground arith
    | inr there ↦
        let kept : select c (update a (λ f. f + x) fs) ≡ select c fs =
          select-update_ne a c (λ f. f + x) fs there in
        ground arith
  ]
]

is_some-update :
    (fs : Table Asset ℕ) (a c : Asset) (x : ℕ)
    → is_some (select c (update a (λ f. f + x) fs)) ≡ is_some (select c fs)
unfolding select update
is_some-update [] a c x = refl
is_some-update ((b, f) ∷ fs) a c x = ground (arith, is_some-update fs a c x)

-- The fees of an order have been collected, and nothing else that the market holds has changed.
pub record Collected (a : Asset) (x : ℕ) (db db' : P2pDb) : Type 0 where
  pub wallets : db'.wallets ≡ db.wallets
  pub listings : db'.listings ≡ db.listings
  pub orders : db'.orders ≡ db.orders
  pub fees :
      (c : Asset)
      → fees_of db'.admin_wallets c ≡ fees_of db.admin_wallets c + (if asset_eq a c then x else 0)
  pub rows :
      (c : Asset) → is_some (select c db'.admin_wallets) ≡ is_some (select c db.admin_wallets)

pub collect_fees-Collected :
    (id : ℕ) (o : Order) (db : P2pDb) {y : Unit {0}} {db' : P2pDb}
    → HasFeeWallet db o.asset
    → collect_fees id o db ≡ ok (y, db')
    → Collected o.asset (o.buyer_fee + o.seller_fee) db db'
unfolding collect_fees credit_fees credit_admin insert_admin_entry
collect_fees-Collected id o db {y} {db'} has h =
    elim (Bool-cases (ltb 0 (o.buyer_fee + o.seller_fee))) [
      | inl some_fee ↦
          let x = o.buyer_fee + o.seller_fee in
          let run : credit_fees id o x db ≡ ok (y, db') = ground arith in
          let (_, d1, h1, k1) = bind-ok _ _ db run in
          let (_, k2) = check-bind _ _ _ d1 (query-bind _ _ d1 k1) in
          record {
            wallets = ground arith;
            listings = ground arith;
            orders = ground arith;
            fees = λ c. ground (arith, fees_of-update db.admin_wallets o.asset c x has);
            rows = λ c. ground (arith, is_some-update db.admin_wallets o.asset c x);
          }
      | inr no_fee ↦ record {
        wallets = ground arith;
        listings = ground arith;
        orders = ground arith;
        fees = λ c. ground arith;
        rows = λ c. ground arith;
      }
    ]
