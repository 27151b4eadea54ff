-- ===== src/P2p/Taking/Sound.antt =====
-- An order that is created keeps the market's books.
use dex_backend.Base.{
  ℕ, ◌+◌, ◌≡◌, sym, ap, inl, inr, true, false, some, ◌==◌, ==_iff, arith, Bool-cases, if◌then◌else◌,
}
use mathlib.Core.Path.{subst}
use dex_backend.Base.Key.{nat_key}
use dex_backend.Result.{ok}
use dex_backend.Text.Bytes.{Str}
use dex_backend.Asset.{Asset, asset_eq}
use dex_backend.Asset.Laws.{asset_key}
use dex_backend.Table.{select, sum}
use dex_backend.Table.Laws.{select-insert, sum-insert, select-update_self, select-update_ne}
use dex_backend.Ledger.{validate_positive_amount}
use dex_backend.Ledger.Amounts.{positive_amount}
use dex_backend.Ledger.Cells.{total}
use dex_backend.P2p.Schema.{
  Side, FundingSource, FeeModel, legacy_fiat, biusd_1pct_each, Listing, Order, P2pDb,
}
use dex_backend.P2p.Fees.Laws.{p2p_biusd_settlement_splits}
use dex_backend.P2p.Release.Laws.{IsAccounted}
use dex_backend.P2p.Release.Collect.{HasFeeWallet}
use dex_backend.P2p.Holdings.{worth, at_stake, held}
use dex_backend.P2p.Lifecycle.{IsSound}
use dex_backend.P2p.Taking.{order_fees, is_legacy, new_order, taken, create_order_with_payment}
use dex_backend.P2p.Taking.Funds.{Paid}
use dex_backend.P2p.Taking.Laws.{Placed, create_order_with_payment_places}

-- What the seller's wallets lose.
abbrev spent : Side → FundingSource → ℕ → ℕ → ℕ
spent side source x debit = if is_legacy side source then x else debit

Paid_spends :
    (u : ℕ) (a : Asset) (x debit : ℕ) (db d : P2pDb) {side : Side} {source : FundingSource}
    (c : Asset)
    → Paid u a x debit db d side source
    → total c d.ledger
        + sum (worth c) d.wallets
        + (if asset_eq a c then spent side source x debit else 0)
      ≡ total c db.ledger + sum (worth c) db.wallets
Paid_spends u a x debit db d c (Paid.by_taker source covered set) =
    ground (arith, set.sums c, set.rest)
Paid_spends u a x debit db d c (Paid.by_ad covered set) = ground (arith, set.sums c, set.rest)
Paid_spends u a x debit db d c (Paid.by_main balance lock wrote same) =
    ground (arith, wrote.totals c)

order_fees-balanced :
    (model : FeeModel) (x : ℕ) (raw : Str) {fee credit debit : ℕ}
    → validate_positive_amount raw ≡ ok x
    → order_fees model x raw ≡ ok (fee, credit, debit)
    → debit ≡ credit + fee + fee
unfolding order_fees
order_fees-balanced legacy_fiat x raw read h = ground arith
order_fees-balanced biusd_1pct_each x raw read h =
    let (text, pos_x) = positive_amount raw read in
    let (f, c, d, settled, _, _, _, both, _) = p2p_biusd_settlement_splits raw x text pos_x in
    ground arith

order_fees-legacy :
    (model : FeeModel) (x : ℕ) (raw : Str) {fees : ℕ × ℕ × ℕ}
    → model ≡ legacy_fiat
    → order_fees model x raw ≡ ok fees
    → fees.2 ≡ x
unfolding order_fees
order_fees-legacy legacy_fiat x raw is h = ground arith
order_fees-legacy biusd_1pct_each x raw is h = cc

-- Every ad's asset has a fee wallet, and ads paid from the main wallet have no fee in BIUSD (as the
-- migration sets them).
abbrev pub IsServed : P2pDb → Type 0
IsServed db =
    (id : ℕ) (l : Listing)
    → select id db.listings ≡ some l
    → HasFeeWallet db l.asset
      × (is_legacy l.side l.funding_source ≡ true → l.fee_model ≡ legacy_fiat)

-- What a new order does to the books, given its fees.
module _ (now taker id x : ℕ) (raw selected key : Str) (n : ℕ) (o : Order) (db db' : P2pDb)
    (read : validate_positive_amount raw ≡ ok x)
    (p : Placed now taker id x raw selected key n o db db') where
  placed-IsAccounted : IsAccounted o
  unfolding new_order
  placed-IsAccounted =
      let balanced =
        order_fees-balanced p.listing.fee_model x raw {fee = p.fees.0} {credit = p.fees.1}
          {debit = p.fees.2} read p.charged in
      (λ over. ground (arith, p.order), λ goes_on. ground (arith, p.order))

  placed-others : (j : ℕ) → (n == j) ≡ false → select j db'.orders ≡ select j db.orders
  placed-others j other = ground (arith, p.orders, select-insert n j o db.orders)

  placed-here : select n db'.orders ≡ some o
  placed-here = ground (arith, p.orders, select-insert n n o db.orders, ==_iff n n)

  placed-IsSound : IsSound db → HasFeeWallet db p.listing.asset → IsSound db'
  unfolding new_order
  placed-IsSound sound has j q at_j = elim (Bool-cases (n == j)) [
    | inl here ↦
        let at_n : select n db'.orders ≡ some q =
          subst (λ k. select k db'.orders ≡ some q) (sym (ground (arith, ==_iff n j))) at_j in
        let q_is : o ≡ q = ground (arith, placed-here) in
        subst (λ r. IsAccounted r × HasFeeWallet db' r.asset) q_is
          (placed-IsAccounted, ground (arith, p.order, p.admin_wallets))
    | inr there ↦
        let (accounted, wallet) = sound j q (ground (arith, placed-others j there)) in
        (accounted, ground (arith, p.admin_wallets))
  ]

  placed-conserves :
      (is_legacy p.listing.side p.listing.funding_source ≡ true → p.listing.fee_model ≡ legacy_fiat)
      → (c : Asset) → total c db'.ledger + held c db' ≡ total c db.ledger + held c db
  unfolding new_order held
  placed-conserves matched c =
      let spends = Paid_spends _ _ x p.fees.2 db _ c p.paid in
      elim (Bool-cases (is_legacy p.listing.side p.listing.funding_source)) [
        | inl legacy ↦
            let whole = order_fees-legacy p.listing.fee_model x raw (matched legacy) p.charged in
            ground (
              arith,
              spends,
              p.orders,
              p.order,
              p.admin_wallets,
              sum-insert (at_stake c) n o db.orders,
            )
        | inr wallet ↦ ground (
          arith,
          spends,
          p.orders,
          p.order,
          p.admin_wallets,
          sum-insert (at_stake c) n o db.orders,
        )
      ]

  placed-IsServed : IsServed db → IsServed db'
  placed-IsServed served j k at_j = elim (Bool-cases (id == j)) [
    | inl here ↦
        let j_is : id ≡ j = ground (arith, ==_iff id j) in
        let at_id : select id db'.listings ≡ some k =
          subst (λ i. select i db'.listings ≡ some k) (sym j_is) at_j in
        let k_is : taken x p.listing ≡ k =
          ground
            (arith, p.listings, select-update_self id (taken x) db.listings p.listing p.is_there) in
        let (has, matched) = served id p.listing p.is_there in
        subst
          (λ (m : Listing).
            HasFeeWallet db' m.asset
            × (is_legacy m.side m.funding_source ≡ true → m.fee_model ≡ legacy_fiat))
          k_is (ground (arith, p.admin_wallets), matched)
    | inr there ↦
        let (has, matched) =
          served j k
            (ground (arith, p.listings, select-update_ne id j (taken x) db.listings there)) in
        (ground (arith, p.admin_wallets), matched)
  ]

-- From tables where every order's escrow is accounted for and has a fee wallet to go to, and every ad
-- has a fee wallet and no fee in BIUSD if it is paid from the main wallet, an order request that
-- succeeds leads to such tables again. What main wallets and market hold together of every asset is
-- the same, and every order but the one returned is as it was.
pub create_order_with_payment_conserves :
    (now taker id : ℕ) (raw selected idempotency_key : Str) (db : P2pDb) {n : ℕ} {o : Order}
    {db' : P2pDb}
    → IsSound db
    → IsServed db
    → create_order_with_payment now taker id raw selected idempotency_key db ≡ (ok (n, o), db')
    → IsSound db'
      × IsServed db'
      × ((c : Asset) → total c db'.ledger + held c db' ≡ total c db.ledger + held c db)
      × ((j : ℕ) → (n == j) ≡ false → select j db'.orders ≡ select j db.orders)
create_order_with_payment_conserves now taker id raw selected idempotency_key db {n} {o} {db'} sound
      served h =
    let (x, key, read, _, outcome) =
      create_order_with_payment_places now taker id raw selected idempotency_key db h in
    elim outcome [
      | inl p ↦
          let (has, matched) = served id p.listing p.is_there in
          (
            placed-IsSound now taker id x raw selected key n o db db' read p sound has,
            placed-IsServed now taker id x raw selected key n o db db' read p served,
            placed-conserves now taker id x raw selected key n o db db' read p matched,
            placed-others now taker id x raw selected key n o db db' read p,
          )
      | inr r ↦ (
        subst IsSound (sym r.unchanged) sound,
        subst IsServed (sym r.unchanged) served,
        λ c. ap (λ (d : P2pDb). total c d.ledger + held c d) r.unchanged,
        λ j other. ap (λ (d : P2pDb). select j d.orders) r.unchanged,
      )
    ]
