-- ===== src/P2p/Refund/Laws.antt =====
-- A refund returns the whole escrow to the seller.
use dex_backend.Base.{
  ℕ, ◌+◌, ◌≡◌, sym, ◌&&◌, ◌||◌, not, inl, inr, ◌≢◌, Bool, true, false, Option, some, ◌==◌, ==_iff,
  arith, Bool-cases, if◌then◌else◌,
}
use mathlib.Core.Path.{subst}
use dex_backend.Base.Key.{nat_key}
use dex_backend.Result.{ok}
use dex_backend.Text.Bytes.{Str}
use dex_backend.Asset.{Asset, asset_eq}
use dex_backend.Asset.Laws.{asset_eq_iff, asset_key}
use dex_backend.Table.{select, update}
use dex_backend.Table.Laws.{select-update_self, select-update_ne, sum-update}
use dex_backend.Tx.Laws.{bind-ok, query-bind, found-bind, check-bind}
use dex_backend.P2p.Schema.{P2pWallet, OrderStatus, active, Listing, Order, P2pDb}
use dex_backend.P2p.{insert_wallet_entry, update_listing, lock_wallet}
use dex_backend.P2p.Refund.{
  is_sell, is_p2p_wallet, is_withdrawn, reopen, return_to_ad, return_to_seller, give_back,
  refund_tx,
}
use dex_backend.P2p.Holdings.{wallet_of, worth, at_stake, held, Set, wallet-Set, close-Closed}

-- The escrow goes back into the ad's reservation.
abbrev pub to_ad : Listing → Bool
to_ad l = is_sell l.side && is_p2p_wallet l.funding_source && not (is_withdrawn l.status)

abbrev pub restore : Bool → ℕ → P2pWallet → P2pWallet
restore true x w = record w { reserved = w.reserved + x }
restore false x w = record w { available = w.available + x }

-- The ad takes orders again.
abbrev pub reopens : Listing → Bool
reopens l = to_ad l || (not (is_sell l.side) && not (is_withdrawn l.status))

abbrev pub reopened : Order → Listing → Listing
reopened o l = record l { remaining = l.remaining + o.amount; status = active }

-- What `give_back` leaves.
record GivenBack (o : Order) (l : Listing) (db db' : P2pDb) : Type 0 where
  set : P2pDb
  sets : Set o.seller_id o.asset (restore (to_ad l) o.escrow) db set
  wallets : db'.wallets ≡ set.wallets
  admin_wallets : db'.admin_wallets ≡ db.admin_wallets
  orders : db'.orders ≡ db.orders
  listings :
      db'.listings
      ≡ (if reopens l then update o.listing_id (reopened o) db.listings else db.listings)

give_back-GivenBack :
    (o : Order) (l : Listing) (db : P2pDb) {y z : Unit {0}} {d db' : P2pDb}
    → lock_wallet o.seller_id o.asset db ≡ ok (y, d)
    → give_back o l d ≡ ok (z, db')
    → GivenBack o l db db'
unfolding give_back return_to_ad return_to_seller reopen update_listing
give_back-GivenBack o l db {z = z} {d = d} {db' = db'} locks h = elim (Bool-cases (to_ad l)) [
  | inl ad ↦
      let run : return_to_ad o d ≡ ok (z, db') = ground arith in
      let (n, e, h1, k1) = bind-ok _ _ d run in
      let set = wallet-Set o.seller_id o.asset _ db locks h1 in
      record {
        set = e;
        sets = subst (λ b. Set o.seller_id o.asset (restore b o.escrow) db e) (sym ad) set;
        wallets = ground arith;
        admin_wallets = ground (arith, set.rest);
        orders = ground (arith, set.rest);
        listings = ground (arith, set.rest);
      }
  | inr not_ad ↦
      let run : return_to_seller o l d ≡ ok (z, db') = ground arith in
      let (n, e, h1, k1) = bind-ok _ _ d run in
      let set = wallet-Set o.seller_id o.asset _ db locks h1 in
      elim (Bool-cases (not (is_sell l.side) && not (is_withdrawn l.status))) [
        | inl again ↦ record {
          set = e;
          sets = subst (λ b. Set o.seller_id o.asset (restore b o.escrow) db e) (sym not_ad) set;
          wallets = ground arith;
          admin_wallets = ground (arith, set.rest);
          orders = ground (arith, set.rest);
          listings = ground (arith, set.rest);
        }
        | inr stays ↦ record {
          set = e;
          sets = subst (λ b. Set o.seller_id o.asset (restore b o.escrow) db e) (sym not_ad) set;
          wallets = ground arith;
          admin_wallets = ground (arith, set.rest);
          orders = ground (arith, set.rest);
          listings = ground (arith, set.rest);
        }
      ]
]

abbrev pub void : OrderStatus → Str → Option ℕ → Order → Order
void final reason by o = record o {
  escrow = 0;
  status = final;
  cancellation_reason = some reason;
  cancelled_by = by;
}

-- The order `o`, under `id`, on the ad `l`, has been refunded.
pub record Refunded (id : ℕ) (o : Order) (l : Listing) (final : OrderStatus) (reason : Str)
    (by : Option ℕ) (db db' : P2pDb) : Type 0 where
  pub wallets :
      (v : ℕ) (c : Asset)
      → wallet_of db'.wallets v c ≡ (
          if o.seller_id == v && asset_eq o.asset c
          then restore (to_ad l) o.escrow (wallet_of db.wallets v c)
          else wallet_of db.wallets v c)
  pub order : select id db'.orders ≡ some (void final reason by o)
  pub others : (j : ℕ) → (id == j) ≡ false → select j db'.orders ≡ select j db.orders
  pub listings :
      db'.listings
      ≡ (if reopens l then update o.listing_id (reopened o) db.listings else db.listings)
  pub admin_wallets : db'.admin_wallets ≡ db.admin_wallets
  pub conserves : (c : Asset) → held c db' ≡ held c db

worth-restore :
    (b : Bool) (x : ℕ) (c : Asset) (u : ℕ) (a : Asset) (w : P2pWallet)
    → worth c (u, a) (restore b x w) ≡ worth c (u, a) w + (if asset_eq a c then x else 0)
worth-restore true x c u a w = ground arith
worth-restore false x c u a w = ground arith

Refunded-intro :
    (id : ℕ) (o : Order) (l : Listing) (final : OrderStatus) (reason : Str) (by : Option ℕ)
    (db d db' : P2pDb)
    → select id db.orders ≡ some o
    → GivenBack o l db d
    → db'.wallets ≡ d.wallets
    → db'.admin_wallets ≡ d.admin_wallets
    → db'.listings ≡ d.listings
    → db'.orders ≡ update id (void final reason by) db.orders
    → Refunded id o l final reason by db db'
Refunded-intro id o l final reason by db d db' at_id back wallets fees listings orders = record {
  wallets = λ v c.
      ground
        (arith, back.sets.wallets v c, back.wallets, ==_iff o.seller_id v, asset_eq_iff o.asset c);
  order = ground (arith, select-update_self id (void final reason by) db.orders o at_id);
  others = λ j other. ground (arith, select-update_ne id j (void final reason by) db.orders other);
  listings = ground (arith, back.listings);
  admin_wallets = ground (arith, back.admin_wallets);
  conserves = λ c.
      unfold held in
      ground (
        arith,
        back.sets.sums c,
        back.wallets,
        back.admin_wallets,
        worth-restore (to_ad l) o.escrow c o.seller_id o.asset
            (wallet_of db.wallets o.seller_id o.asset),
        sum-update (at_stake c) id (void final reason by) db.orders o at_id,
      );
}

-- A refund that succeeds had something in escrow.
pub refund_tx-Refunded :
    (id : ℕ) (o : Order) (final : OrderStatus) (reason : Str) (by : Option ℕ) (db : P2pDb)
    {p : Order} {db' : P2pDb}
    → select id db.orders ≡ some o
    → refund_tx id o final reason by db ≡ ok (p, db')
    → (l : Listing) × (select o.listing_id db.listings ≡ some l)
      × (o.escrow ≢ 0)
      × (p ≡ void final reason by o)
      × Refunded id o l final reason by db db'
unfolding refund_tx insert_wallet_entry
refund_tx-Refunded id o final reason by db {db' = db'} at_id h =
    let (some_escrow, k0) = check-bind _ _ _ db h in
    let (l, listed, k1) = found-bind _ _ _ db (query-bind _ _ db k0) in
    let (_, d1, h1, k2) = bind-ok _ _ db k1 in
    let (_, d2, h2, k3) = bind-ok _ _ d1 k2 in
    let (_, d3, h3, k4) = bind-ok _ _ d2 k3 in
    let back = give_back-GivenBack o l db h1 h2 in
    let closed = close-Closed id (void final reason by) _ _ _ d3 k4 in
    let done : Refunded id o l final reason by db db' =
      Refunded-intro id o l final reason by db d2 db' at_id back (ground (arith, closed.wallets))
        (ground (arith, closed.admin_wallets)) (ground (arith, closed.listings))
        (ground (arith, closed.orders, back.orders)) in
    (
      l,
      listed,
      λ none_left. ground (arith, ==_iff o.escrow 0),
      ground (arith, closed.order, done.order),
      done,
    )
