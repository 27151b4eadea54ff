-- ===== src/P2p/Holdings.antt =====
-- What the market holds of an asset, and how a credit of a wallet changes it.
use dex_backend.Base.{
  ℕ, Bool, true, ◌+◌, ◌≡◌, refl, sym, ◌&&◌, none, some, ◌==◌, ==_iff, arith, inl, inr, Option-cases,
  Bool-cases, if◌then◌else◌,
}
use mathlib.Core.Path.{subst}
use dex_backend.Base.Key.{same, nat_key, pair_key}
use dex_backend.Result.{ok, Err}
use dex_backend.Text.Bytes.{Str}
use dex_backend.Tx.{◌>>◌}
use dex_backend.Tx.Laws.{bind-ok, query-bind, found-ok}
use dex_backend.Asset.{Asset, asset_eq}
use dex_backend.Asset.Laws.{asset_eq_iff, asset_key}
use dex_backend.Table.{Table, select, insert, update, sum}
use dex_backend.Table.Laws.{
  select-update_self, select-update_ne, sum-update, select-insert, sum-insert,
}
use dex_backend.P2p.Schema.{P2pWallet, Order, OrderEvent, P2pDb}
use dex_backend.P2p.{
  empty_wallet, lock_wallet, update_wallets, any_wallet, update_order, insert_event, insert_message,
  find_order,
}

-- What `WalletBalanceForAsset` reports: zeros where there is no row.
unfoldable pub wallet_of : Table (ℕ × Asset) P2pWallet → ℕ → Asset → P2pWallet
wallet_of ws u a = elim (select (u, a) ws) [ none ↦ empty_wallet | some w ↦ w ]

abbrev pub worth : Asset → ℕ × Asset → P2pWallet → ℕ
worth a (u, b) w = if asset_eq b a then w.available + w.reserved else 0

abbrev pub at_stake : Asset → ℕ → Order → ℕ
at_stake a id o = if asset_eq o.asset a then o.escrow else 0

-- The fees collected in an asset.
unfoldable pub fees_of : Table Asset ℕ → Asset → ℕ
fees_of fs a = elim (select a fs) [ none ↦ 0 | some f ↦ f ]

-- All that the market holds of an asset: in users' wallets, in escrow, and as fees.
unfoldable pub held : Asset → P2pDb → ℕ
held a db = sum (worth a) db.wallets + sum (at_stake a) db.orders + fees_of db.admin_wallets a

-- The wallet of one user and asset has become `set` of what it was, and nothing else has changed.
pub record Set (u : ℕ) (a : Asset) (set : P2pWallet → P2pWallet) (db db' : P2pDb) : Type 0 where
  pub wallets :
      (v : ℕ) (c : Asset)
      → wallet_of db'.wallets v c ≡ (
          if u == v && asset_eq a c
          then set (wallet_of db.wallets u a)
          else wallet_of db.wallets v c)
  pub sums :
      (c : Asset)
      → sum (worth c) db'.wallets + worth c (u, a) (wallet_of db.wallets u a)
        ≡ sum (worth c) db.wallets + worth c (u, a) (set (wallet_of db.wallets u a))
  pub rest : db' ≡ record db { wallets = db'.wallets }

wallet_none :
    (u : ℕ) (a : Asset) (ws : Table (ℕ × Asset) P2pWallet)
    → select (u, a) ws ≡ none
    → wallet_of ws u a ≡ empty_wallet
unfolding wallet_of
wallet_none u a ws absent = ground arith

wallet_some :
    (u : ℕ) (a : Asset) (ws : Table (ℕ × Asset) P2pWallet) {w : P2pWallet}
    → select (u, a) ws ≡ some w
    → wallet_of ws u a ≡ w
unfolding wallet_of
wallet_some u a ws present = ground arith

wallet_of-insert :
    (u : ℕ) (a : Asset) (ws : Table (ℕ × Asset) P2pWallet) (v : ℕ) (c : Asset)
    → select (u, a) ws ≡ none
    → wallet_of (insert (u, a) empty_wallet ws) v c ≡ wallet_of ws v c
unfolding wallet_of
wallet_of-insert u a ws v c absent = elim (Bool-cases (u == v && asset_eq a c)) [
  | inl here ↦
      let u_is : u ≡ v = ground (arith, ==_iff u v) in
      let a_is : a ≡ c = ground (arith, asset_eq_iff a c) in
      let none_there : select (v, c) ws ≡ none = rw (← u_is, ← a_is) absent in
      ground (arith, select-insert (u, a) (v, c) empty_wallet ws)
  | inr there ↦ ground (arith, select-insert (u, a) (v, c) empty_wallet ws)
]

wallet_of-update :
    (u : ℕ) (a : Asset) (g : P2pWallet → P2pWallet) (ws : Table (ℕ × Asset) P2pWallet)
    (w : P2pWallet) (v : ℕ) (c : Asset)
    → select (u, a) ws ≡ some w
    → wallet_of (update (u, a) g ws) v c
      ≡ (if u == v && asset_eq a c then g w else wallet_of ws v c)
unfolding wallet_of
wallet_of-update u a g ws w v c present = elim (Bool-cases (u == v && asset_eq a c)) [
  | inl here ↦
      let u_is : u ≡ v = ground (arith, ==_iff u v) in
      let a_is : a ≡ c = ground (arith, asset_eq_iff a c) in
      let set_there : select (v, c) (update (u, a) g ws) ≡ some (g w) =
        rw (← u_is, ← a_is) (select-update_self (u, a) g ws w present) in
      ground arith
  | inr there ↦
      let kept : select (v, c) (update (u, a) g ws) ≡ select (v, c) ws =
        select-update_ne (u, a) (v, c) g ws there in
      ground arith
]

-- A wallet that is locked has a row, and no wallet has changed.
pub record Locked (u : ℕ) (a : Asset) (db db' : P2pDb) : Type 0 where
  pub row : select (u, a) db'.wallets ≡ some (wallet_of db.wallets u a)
  pub wallets : (v : ℕ) (c : Asset) → wallet_of db'.wallets v c ≡ wallet_of db.wallets v c
  pub sums : (c : Asset) → sum (worth c) db'.wallets ≡ sum (worth c) db.wallets
  pub rest : db' ≡ record db { wallets = db'.wallets }

pub lock_wallet-Locked :
    (u : ℕ) (a : Asset) (db : P2pDb) {x : Unit {0}} {d : P2pDb}
    → lock_wallet u a db ≡ ok (x, d)
    → Locked u a db d
unfolding lock_wallet
lock_wallet-Locked u a db {d = d} h = elim (Option-cases (select (u, a) db.wallets)) [
  | inl absent ↦
      let d_is : d ≡ record db { wallets = insert (u, a) empty_wallet db.wallets } = ground arith in
      subst (Locked u a db) (sym d_is) (record {
        row = ground (
          arith,
          ==_iff u u,
          asset_eq_iff a a,
          select-insert (u, a) (u, a) empty_wallet db.wallets,
          wallet_none u a db.wallets absent,
        );
        wallets = λ v c. wallet_of-insert u a db.wallets v c absent;
        sums = λ c. ground (arith, sum-insert (worth c) (u, a) empty_wallet db.wallets);
        rest = refl;
      })
  | inr (w, present) ↦
      let d_is : d ≡ db = ground arith in
      subst (Locked u a db) (sym d_is) (record {
        row = ground (arith, wallet_some u a db.wallets present);
        wallets = λ v c. refl;
        sums = λ c. refl;
        rest = refl;
      })
]

-- A row that was locked is set.
pub Locked-Set :
    (u : ℕ) (a : Asset) (set : P2pWallet → P2pWallet) (db : P2pDb) {n : ℕ} {d e : P2pDb}
    → Locked u a db d
    → update_wallets u a any_wallet set d ≡ ok (n, e)
    → Set u a set db e
unfolding update_wallets
Locked-Set u a set db {d = d} {e = e} locked updates =
    let w = wallet_of db.wallets u a in
    let row = locked.row in
    let e_is : e ≡ record d { wallets = update (u, a) set d.wallets } = ground arith in
    subst (Set u a set db) (sym e_is) (record {
      wallets =
          λ v c. ground (arith, wallet_of-update u a set d.wallets w v c row, locked.wallets v c);
      sums = λ c. ground (arith, sum-update (worth c) (u, a) set d.wallets w row, locked.sums c);
      rest = ground (arith, locked.rest);
    })

-- An update with a condition that has changed a row: the row that was locked met it and is set.
pub Locked-Set_if :
    (u : ℕ) (a : Asset) (where_ : P2pWallet → Bool) (set : P2pWallet → P2pWallet) (db : P2pDb)
    {d e : P2pDb}
    → Locked u a db d
    → update_wallets u a where_ set d ≡ ok (1, e)
    → (where_ (wallet_of db.wallets u a) ≡ true) × Set u a set db e
unfolding update_wallets
Locked-Set_if u a where_ set db {d = d} {e = e} locked updates =
    let row = locked.row in
    elim (Bool-cases (where_ (wallet_of db.wallets u a))) [
      | inl meets ↦
          (meets, Locked-Set u a set db {n = 1} locked (unfold update_wallets in ground arith))
      | inr fails ↦ absurd (ground arith)
    ]

-- A wallet that is locked and then set.
pub wallet-Set :
    (u : ℕ) (a : Asset) (set : P2pWallet → P2pWallet) (db : P2pDb) {x : Unit {0}} {n : ℕ}
    {d e : P2pDb}
    → lock_wallet u a db ≡ ok (x, d)
    → update_wallets u a any_wallet set d ≡ ok (n, e)
    → Set u a set db e
wallet-Set u a set db locks updates =
    Locked-Set u a set db (lock_wallet-Locked u a db locks) updates

-- What ends a refund and a release: the order's row is set, and its event and message are written.
pub record Closed (id : ℕ) (set : Order → Order) (p : Order) (db db' : P2pDb) : Type 0 where
  pub wallets : db'.wallets ≡ db.wallets
  pub admin_wallets : db'.admin_wallets ≡ db.admin_wallets
  pub listings : db'.listings ≡ db.listings
  pub orders : db'.orders ≡ update id set db.orders
  pub order : select id db'.orders ≡ some p

pub close-Closed :
    (id : ℕ) (set : Order → Order) (event : OrderEvent) (body : Str) (x : Err) (db : P2pDb)
    {p : Order} {db' : P2pDb}
    → (update_order id set >> (insert_event event >> (insert_message id body >> find_order id x)))
        db
      ≡ ok (p, db')
    → Closed id set p db db'
unfolding update_order insert_event insert_message
close-Closed id set event body x db h =
    let (_, d1, h1, k1) = bind-ok _ _ db h in
    let (_, d2, h2, k2) = bind-ok _ _ d1 k1 in
    let (_, d3, h3, k3) = bind-ok _ _ d2 k2 in
    let (found_row, same) = found-ok _ _ d3 (query-bind _ _ d3 k3) in
    record {
      wallets = ground arith;
      admin_wallets = ground arith;
      listings = ground arith;
      orders = ground arith;
      order = ground arith;
    }
