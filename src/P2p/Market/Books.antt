-- ===== src/P2p/Market/Books.antt =====
-- A market that runs keeps the books, whatever it is called to do.
use dex_backend.Base.{
  ℕ, ◌+◌, ◌≡◌, ◌∙◌, refl, ap, sym, inl, inr, true, List, [], ◌∷◌, ◌==◌, arith, Bool-cases,
}
use mathlib.Core.Path.{subst}
use dex_backend.Base.Key.{nat_key}
use dex_backend.Result.{Result, ok, Result-cases}
use dex_backend.Text.Bytes.{Str, bytes}
use dex_backend.Asset.{Asset, biusd}
use dex_backend.Asset.Laws.{asset_key}
use dex_backend.Table.{Table, select}
use dex_backend.Table.Laws.{select-insert}
use dex_backend.Ledger.{is_some}
use dex_backend.Ledger.Cells.{total}
use dex_backend.Tx.Laws.{transact-err}
use dex_backend.P2p.Schema.{Side, buy, sell, p2p_wallet, Method, Listing, Order, P2pDb, legacy_fiat}
use dex_backend.P2p.Holdings.{held}
use dex_backend.P2p.Funding.{normalize_p2p_asset, fund_wallet_asset}
use dex_backend.P2p.Release.Collect.{HasFeeWallet}
use dex_backend.P2p.Lifecycle.{IsSound}
use dex_backend.P2p.Lifecycle.Runs.{OrderCall, perform, perform_all, perform_all_conserves}
use dex_backend.P2p.Ads.{new_listing, create_listing_with_limits}
use dex_backend.P2p.Ads.Laws.{Posted, create_listing_with_limits_posts}
use dex_backend.P2p.Taking.{create_order_with_payment, is_legacy}
use dex_backend.P2p.Taking.Laws.{create_order_with_payment_places}
use dex_backend.P2p.Taking.Sound.{IsServed, create_order_with_payment_conserves}
use dex_backend.P2p.Expiry.{expire_each, expire_one, goes_on, expire_pending_orders}
use dex_backend.P2p.Market.{MarketCall, market_call, market_calls}
use dex_backend.P2p.Listings.{cancel_listing}
use dex_backend.P2p.Market.Frames.{KeepsTerms}
use dex_backend.P2p.Market.Calm.{fund-Calm}
use dex_backend.P2p.Market.Funds.{fund-Balanced, cancel_listing-Withdrawn}
use dex_backend.P2p.Market.Orders.{perform-Framed}

-- Every order's escrow is accounted for, every ad can be taken, and BIUSD has a fee wallet.
abbrev pub IsRunning : P2pDb → Type 0
IsRunning db = IsSound db × IsServed db × HasFeeWallet db biusd

-- The market runs on, and main wallets and market hold as much together as before.
abbrev pub RunsOn : P2pDb → P2pDb → Type 0
RunsOn db db' =
    IsRunning db' × ((c : Asset) → total c db'.ledger + held c db' ≡ total c db.ledger + held c db)

RunsOn-trans : (d e f : P2pDb) → RunsOn d e → RunsOn e f → RunsOn d f
RunsOn-trans d e f (_, h) (running, k) = (running, λ c. k c ∙ h c)

RunsOn-same : (d e : P2pDb) → IsRunning d → e ≡ d → RunsOn d e
RunsOn-same d e running same = subst (RunsOn d) (sym same) (running, λ c. refl)

terms-IsServed :
    (db db' : P2pDb)
    → KeepsTerms db.listings db'.listings
    → ((c : Asset) → is_some (select c db'.admin_wallets) ≡ is_some (select c db.admin_wallets))
    → IsServed db
    → IsServed db'
terms-IsServed db db' terms fee_rows served id l' at_id =
    let (l, there, same) = terms id l' at_id in
    let (has, matched) = served id l there in
    (
      subst (HasFeeWallet db') (sym same.asset) (fee_rows l.asset ∙ has),
      λ legacy. same.fee_model ∙ matched (ground (arith, same.side, same.funding_source)),
    )

kept-IsSound :
    (db db' : P2pDb)
    → db'.orders ≡ db.orders
    → db'.admin_wallets ≡ db.admin_wallets
    → IsSound db
    → IsSound db'
kept-IsSound db db' orders fees sound j o at_j =
    let (accounted, has) = sound j o (ap (select j) (sym orders) ∙ at_j) in
    (accounted, ap (λ (t : Table Asset ℕ). is_some (select o.asset t)) fees ∙ has)

perform-RunsOn : (c : OrderCall) (db : P2pDb) → IsRunning db → RunsOn db (perform c db)
perform-RunsOn c db (sound, served, fees) =
    let f = perform-Framed c db in
    let (sound_on, held_same) : IsSound (perform c db)
        × ((a : Asset) → held a (perform c db) ≡ held a db) =
      unfold perform_all in perform_all_conserves (c ∷ []) db sound in
    (
      (
        sound_on,
        terms-IsServed db (perform c db) f.terms f.fee_rows served,
        f.fee_rows biusd ∙ fees,
      ),
      λ a. ground (arith, ap (total a) f.ledger, held_same a),
    )

expire_each-RunsOn : (ids : List ℕ) (db : P2pDb) → IsRunning db → RunsOn db (expire_each ids db).1
unfolding expire_each
expire_each-RunsOn [] db running = (running, λ c. refl)
expire_each-RunsOn (id ∷ ids) db running =
    let d = (expire_one id db).1 in
    let next : RunsOn db d =
      perform-RunsOn (OrderCall.cancel 0 id true (bytes "payment window expired")) db running in
    let later = RunsOn-trans db d (expire_each ids d).1 next (expire_each-RunsOn ids d next.0) in
    elim (Bool-cases (goes_on (expire_one id db).0)) [
      | inl going ↦ rw going later
      | inr ended ↦ rw ended next
    ]

expire-RunsOn :
    (now limit : ℕ) (db : P2pDb) → IsRunning db → RunsOn db (expire_pending_orders now limit db).1
unfolding expire_pending_orders
expire-RunsOn now limit db running = expire_each-RunsOn _ db running

read_p2p_asset : (raw : Str) {a : Asset} → normalize_p2p_asset raw ≡ ok a → a ≡ biusd
unfolding normalize_p2p_asset
read_p2p_asset raw h = ground arith

take-RunsOn :
    (now taker id : ℕ) (raw selected key : Str) (db : P2pDb)
    → IsRunning db
    → RunsOn db (create_order_with_payment now taker id raw selected key db).1
take-RunsOn now taker id raw selected key db (sound, served, fees) =
    let run = create_order_with_payment now taker id raw selected key db in
    elim (Result-cases run.0) [
      | inl ((n, o), done) ↦
          let made : run ≡ (ok (n, o), run.1) = ap (λ (r : Result (ℕ × Order)). (r, run.1)) done in
          let (sound_on, served_on, same, _) =
            create_order_with_payment_conserves now taker id raw selected key db sound served
              made in
          let (x, k, _, _, outcome) =
            create_order_with_payment_places now taker id raw selected key db made in
          let fees_on : HasFeeWallet run.1 biusd = elim outcome [
            | inl p ↦ ap (λ (t : Table Asset ℕ). is_some (select biusd t)) p.admin_wallets ∙ fees
            | inr r ↦ subst (λ d. HasFeeWallet d biusd) (sym r.unchanged) fees
          ] in
          ((sound_on, served_on, fees_on), same)
      | inr (e, failed) ↦
          RunsOn-same db run.1 (sound, served, fees)
            (unfold create_order_with_payment in transact-err _ db failed)
    ]

wallet_not_legacy : (side : Side) → is_legacy side p2p_wallet ≡ true → ⊥
wallet_not_legacy buy h = cc
wallet_not_legacy sell h = cc

-- What a new ad does to the books.
module _ (u : ℕ) (side : Side) (a : Asset) (x : ℕ) (raw : Str) (methods : List Method)
    (low high : Str) (id : ℕ) (l : Listing) (db db' : P2pDb)
    (p : Posted u side a x raw methods low high id l db db') where
  posted-IsServed : IsServed db → HasFeeWallet db a → IsServed db'
  posted-IsServed served fees j m at_j = elim (Bool-cases (id == j)) [
    | inl here ↦
        let m_is : new_listing u side a x p.price p.limits methods ≡ m =
          ground (arith, p.ad, p.listings, select-insert id j l db.listings) in
        subst
          (λ (m : Listing).
            HasFeeWallet db' m.asset
            × (is_legacy m.side m.funding_source ≡ true → m.fee_model ≡ legacy_fiat))
          m_is
          (
            ap (λ (t : Table Asset ℕ). is_some (select a t)) p.admin_wallets ∙ fees,
            λ legacy. absurd (wallet_not_legacy side legacy),
          )
    | inr there ↦
        let (has, matched) =
          served j m (ground (arith, p.listings, select-insert id j l db.listings)) in
        (ap (λ (t : Table Asset ℕ). is_some (select m.asset t)) p.admin_wallets ∙ has, matched)
  ]

  posted-total : (c : Asset) → total c db'.ledger ≡ total c db.ledger
  unfolding total
  posted-total c = ap (λ (d : P2pDb). total c d.ledger) p.named.rest

post-RunsOn :
    (user : ℕ) (side asset raw : Str) (texts : List Str) (username low high : Str) (db : P2pDb)
    → IsRunning db
    → RunsOn db (create_listing_with_limits user side asset raw texts username low high db).1
post-RunsOn user side_text asset raw texts username low high db (sound, served, fees) =
    let run = create_listing_with_limits user side_text asset raw texts username low high db in
    elim (Result-cases run.0) [
      | inl ((id, l), done) ↦
          let (a, x, side, methods, asset_read, _, _, _, p, same) =
            create_listing_with_limits_posts user side_text asset raw texts username low high db
              (ap (λ (r : Result (ℕ × Listing)). (r, run.1)) done) in
          let fees_a : HasFeeWallet db a =
            subst (HasFeeWallet db) (sym (read_p2p_asset asset asset_read)) fees in
          (
            (
              kept-IsSound db run.1 p.orders p.admin_wallets sound,
              posted-IsServed user side a x raw methods low high id l db run.1 p served fees_a,
              ap (λ (t : Table Asset ℕ). is_some (select biusd t)) p.admin_wallets ∙ fees,
            ),
            λ c.
                ground (
                  arith,
                  posted-total user side a x raw methods low high id l db run.1 p c,
                  same c,
                ),
          )
      | inr (e, failed) ↦
          RunsOn-same db run.1 (sound, served, fees)
            (unfold create_listing_with_limits in transact-err _ db failed)
    ]

fund-RunsOn :
    (user : ℕ) (asset raw key : Str) (db : P2pDb)
    → IsRunning db
    → RunsOn db (fund_wallet_asset user asset raw key db).1
fund-RunsOn user asset raw key db (sound, served, fees) =
    let db' = (fund_wallet_asset user asset raw key db).1 in
    let calm = fund-Calm user asset raw key db in
    (
      (
        kept-IsSound db db' calm.orders calm.admin_wallets sound,
        λ id l at_id.
            let (has, matched) = served id l (ap (select id) (sym calm.listings) ∙ at_id) in
            (
              ap (λ (t : Table Asset ℕ). is_some (select l.asset t)) calm.admin_wallets ∙ has,
              matched,
            ),
        ap (λ (t : Table Asset ℕ). is_some (select biusd t)) calm.admin_wallets ∙ fees,
      ),
      fund-Balanced user asset raw key db,
    )

withdraw-RunsOn :
    (seller id : ℕ) (db : P2pDb) → IsRunning db → RunsOn db (cancel_listing seller id db).1
withdraw-RunsOn seller id db (sound, served, fees) =
    let db' = (cancel_listing seller id db).1 in
    let w = cancel_listing-Withdrawn seller id db in
    (
      (
        kept-IsSound db db' w.orders w.admin_wallets sound,
        terms-IsServed db db' w.terms
            (λ c. ap (λ (t : Table Asset ℕ). is_some (select c t)) w.admin_wallets) served,
        ap (λ (t : Table Asset ℕ). is_some (select biusd t)) w.admin_wallets ∙ fees,
      ),
      w.balanced,
    )

market_call-RunsOn : (c : MarketCall) (db : P2pDb) → IsRunning db → RunsOn db (market_call c db)
unfolding market_call
market_call-RunsOn (MarketCall.fund user asset raw key) db running =
    fund-RunsOn user asset raw key db running
market_call-RunsOn (MarketCall.post user side asset raw methods username low high) db running =
    post-RunsOn user side asset raw methods username low high db running
market_call-RunsOn (MarketCall.withdraw_ad seller id) db running =
    withdraw-RunsOn seller id db running
market_call-RunsOn (MarketCall.take now taker id raw selected key) db running =
    take-RunsOn now taker id raw selected key db running
market_call-RunsOn (MarketCall.about_order c) db running = perform-RunsOn c db running
market_call-RunsOn (MarketCall.expire now limit) db running = expire-RunsOn now limit db running

-- Wallets are funded, ads are posted, withdrawn and taken, orders are paid, released, cancelled,
-- appealed and resolved, and the expiry job is run, in any order and with any arguments, each call
-- succeeding or failing. From tables where every
-- order's escrow is accounted for and has a fee wallet, every ad has a fee wallet and no fee in BIUSD
-- if it is paid from the main wallet, and BIUSD has a fee wallet, such calls lead to such tables again,
-- and main wallets and market hold together as much of every asset as before.
pub market_calls_conserves :
    (cs : List MarketCall) (db : P2pDb)
    → IsRunning db
    → IsRunning (market_calls cs db)
      × ((c : Asset)
          → total c (market_calls cs db).ledger + held c (market_calls cs db)
            ≡ total c db.ledger + held c db)
unfolding market_calls
market_calls_conserves [] db running = (running, λ c. refl)
market_calls_conserves (c ∷ cs) db running =
    let next = market_call-RunsOn c db running in
    RunsOn-trans db (market_call c db) (market_calls cs (market_call c db)) next
      (market_calls_conserves cs (market_call c db) next.0)
