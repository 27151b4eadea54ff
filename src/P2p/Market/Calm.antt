-- ===== src/P2p/Market/Calm.antt =====
-- What funding the P2P wallet and releasing an ad's reservation leave alone (internal/repo/p2p.go).
use dex_backend.Base.{ℕ, ◌≡◌, ◌∙◌, ap, inl, inr, Bool, true, false, Option, none, some, arith}
use dex_backend.Base.Key.{nat_key}
use dex_backend.Result.{Result, ok, err, Err, Result-cases}
use dex_backend.Text.Bytes.{Str}
use dex_backend.Asset.{Asset}
use dex_backend.Asset.Laws.{asset_key}
use dex_backend.Schema.{LedgerDb}
use dex_backend.Tx.{Tx, ◌>>=◌, pure, check, query, found, given, transact}
use dex_backend.Tx.Laws.{bind-ok, transact-ok, transact-err}
use dex_backend.P2p.Schema.{
  P2pWallet, Side, buy, sell, FundingSource, p2p_wallet, main_wallet_legacy, Listing, WalletEntry,
  P2pDb,
}
use dex_backend.P2p.{lock_wallet, update_wallets, insert_wallet_entry}
use dex_backend.P2p.Funding.{
  on_ledger, fund_or_replay, replay, move_funds, wallet_tx, fund_wallet_asset,
}
use dex_backend.P2p.Funding.Steps.{on_ledger-ok}
use dex_backend.P2p.Listings.{log_release, release_reserved, release_legacy, release_ad}

-- No order, ad or fee wallet has changed.
pub record Calm (db db' : P2pDb) : Type 0 where
  pub orders : db'.orders ≡ db.orders
  pub listings : db'.listings ≡ db.listings
  pub admin_wallets : db'.admin_wallets ≡ db.admin_wallets

abbrev Calms : {A : Type 0} → Tx P2pDb A → Type 0
Calms {A} m = (s : P2pDb) (a : A) (t : P2pDb) → m s ≡ ok (a, t) → Calm s t

Calms-bind :
    {A B : Type 0} (m : Tx P2pDb A) (f : A → Tx P2pDb B)
    → Calms m
    → ((a : A) → Calms (f a))
    → Calms (m >>= f)
Calms-bind m f first rest s b u h =
    let (a, t, h0, k0) = bind-ok m f s h in
    let p = first s a t h0 in
    let q = rest a t b u k0 in
    record {
      orders = q.orders ∙ p.orders;
      listings = q.listings ∙ p.listings;
      admin_wallets = q.admin_wallets ∙ p.admin_wallets;
    }

still : {s t : P2pDb} → t ≡ s → Calm s t
still same = record {
  orders = ap (λ (d : P2pDb). d.orders) same;
  listings = ap (λ (d : P2pDb). d.listings) same;
  admin_wallets = ap (λ (d : P2pDb). d.admin_wallets) same;
}

given-Calms : {A : Type 0} (r : Result A) → Calms (given r)
given-Calms (ok a) s x t h = still (ground arith)
given-Calms (err e) s x t h = absurd (ground arith)

found-Calms : {A : Type 0} (r : Option A) (e : Err) → Calms (found r e)
found-Calms (some a) e s x t h = still (ground arith)
found-Calms none e s x t h = absurd (ground arith)

check-Calms : (b : Bool) (e : Err) → Calms (check b e)
check-Calms true e s x t h = still (ground arith)
check-Calms false e s x t h = absurd (ground arith)

query-Calms : {A : Type 0} (f : P2pDb → A) → Calms (query f)
query-Calms f s x t h = still (ground arith)

pure-Calms : {A : Type 0} (a : A) → Calms (pure a)
pure-Calms a s x t h = still (ground arith)

on_ledger-Calms : {A : Type 0} (m : Tx LedgerDb A) → Calms (on_ledger m)
on_ledger-Calms m s x t h =
    let (_, t_is) = on_ledger-ok m s h in
    record { orders = ground arith; listings = ground arith; admin_wallets = ground arith }

lock_wallet-Calms : (user : ℕ) (a : Asset) → Calms (lock_wallet user a)
unfolding lock_wallet
lock_wallet-Calms user a s x t h = record {
  orders = ground arith;
  listings = ground arith;
  admin_wallets = ground arith;
}

update_wallets-Calms :
    (user : ℕ) (a : Asset) (where_ : P2pWallet → Bool) (set : P2pWallet → P2pWallet)
    → Calms (update_wallets user a where_ set)
unfolding update_wallets
update_wallets-Calms user a where_ set s x t h = record {
  orders = ground arith;
  listings = ground arith;
  admin_wallets = ground arith;
}

entry-Calms : (e : WalletEntry) → Calms (insert_wallet_entry e)
unfolding insert_wallet_entry
entry-Calms e s x t h = record {
  orders = ground arith;
  listings = ground arith;
  admin_wallets = ground arith;
}

move_funds-Calms : (u : ℕ) (a : Asset) (x : ℕ) (key : Str) → Calms (move_funds u a x key)
unfolding move_funds wallet_tx
move_funds-Calms u a x key = Calms-bind _ _ (query-Calms _) λ hold.
    Calms-bind _ _ (on_ledger-Calms _) λ rows. Calms-bind _ _ (check-Calms _ _) λ _.
      Calms-bind _ _ (update_wallets-Calms _ _ _ _) λ n. Calms-bind _ _ (entry-Calms _) λ _.
        Calms-bind _ _ (Calms-bind _ _ (query-Calms _) λ row. found-Calms row _) λ w. pure-Calms _

replay-Calms : (u : ℕ) (a : Asset) (raw : Str) (e : WalletEntry) → Calms (replay u a raw e)
unfolding replay wallet_tx
replay-Calms u a raw e =
    Calms-bind _ _ (check-Calms _ _) λ _.
      Calms-bind _ _ (Calms-bind _ _ (query-Calms _) λ row. found-Calms row _) λ w. pure-Calms _

fund_or_replay-Calms :
    (u : ℕ) (a : Asset) (x : ℕ) (raw key : Str) (prior : Option WalletEntry)
    → Calms (fund_or_replay u a x raw key prior)
unfolding fund_or_replay
fund_or_replay-Calms u a x raw key none = move_funds-Calms u a x key
fund_or_replay-Calms u a x raw key (some e) = replay-Calms u a raw e

Calms-transact : {A : Type 0} (m : Tx P2pDb A) (s : P2pDb) → Calms m → Calm s (transact m s).1
Calms-transact m s calms = elim (Result-cases (transact m s).0) [
  | inl (a, done) ↦ calms s a (transact m s).1 (transact-ok m s (ground arith))
  | inr (e, ended) ↦ still (transact-err m s ended)
]

pub fund-Calm :
    (u : ℕ) (asset raw key : Str) (db : P2pDb) → Calm db (fund_wallet_asset u asset raw key db).1
unfolding fund_wallet_asset
fund-Calm u asset raw key db = Calms-transact _ db (
    Calms-bind _ _ (given-Calms _) λ a. Calms-bind _ _ (given-Calms _) λ x.
      Calms-bind _ _ (given-Calms _) λ k. Calms-bind _ _ (on_ledger-Calms _) λ _.
        Calms-bind _ _ (lock_wallet-Calms u a)
          λ _. Calms-bind _ _ (query-Calms _) λ prior. fund_or_replay-Calms u a x raw k prior)

log_release-Calms : (seller id : ℕ) (l : Listing) (x : ℕ) → Calms (log_release seller id l x)
unfolding log_release insert_wallet_entry
log_release-Calms seller id l x s y t h = record {
  orders = ground arith;
  listings = ground arith;
  admin_wallets = ground arith;
}

release_reserved-Calms : (seller id : ℕ) (l : Listing) → Calms (release_reserved seller id l)
unfolding release_reserved
release_reserved-Calms seller id l = Calms-bind _ _ (given-Calms _) λ x.
    Calms-bind _ _ (lock_wallet-Calms _ _) λ _.
      Calms-bind _ _ (update_wallets-Calms _ _ _ _)
        λ rows. Calms-bind _ _ (check-Calms _ _) λ _. log_release-Calms seller id l x

release_legacy-Calms : (seller : ℕ) (l : Listing) → Calms (release_legacy seller l)
unfolding release_legacy
release_legacy-Calms seller l = Calms-bind _ _ (on_ledger-Calms _) λ _.
    Calms-bind _ _ (given-Calms _) λ a. Calms-bind _ _ (on_ledger-Calms _) λ rows. check-Calms _ _

pub release_ad-Calms :
    (seller id : ℕ) (l : Listing) (side : Side) (source : FundingSource)
    → Calms (release_ad seller id l side source)
unfolding release_ad
release_ad-Calms seller id l buy source = pure-Calms tt
release_ad-Calms seller id l sell p2p_wallet = release_reserved-Calms seller id l
release_ad-Calms seller id l sell main_wallet_legacy = release_legacy-Calms seller l
