-- ===== src/P2p/Market/Frames.antt =====
-- What the calls about orders leave alone: the main wallets, the terms of ads and the fee wallets.
use dex_backend.Base.{
  ℕ, ◌≡◌, ◌∙◌, refl, ap, sym, inl, inr, Bool, some, [], ◌∷◌, ◌==◌, arith, Bool-cases,
}
use mathlib.Core.Path.{subst}
use dex_backend.Base.Key.{nat_key, pair_key}
use dex_backend.Result.{ok, Result-cases}
use dex_backend.Asset.{Asset}
use dex_backend.Asset.Laws.{asset_key}
use dex_backend.Table.{Table, select, update}
use dex_backend.Ledger.{is_some}
use dex_backend.Tx.{Tx, ◌>>=◌, transact}
use dex_backend.Tx.Laws.{bind-ok, transact-ok, transact-err}
use dex_backend.P2p.Schema.{P2pWallet, Listing, P2pDb}
use dex_backend.P2p.{lock_wallet, update_wallets, update_listing}

pub record SameTerms (l l' : Listing) : Type 0 where
  pub asset : l'.asset ≡ l.asset
  pub side : l'.side ≡ l.side
  pub funding_source : l'.funding_source ≡ l.funding_source
  pub fee_model : l'.fee_model ≡ l.fee_model

-- Every ad of the second table was in the first, with the same terms.
abbrev pub KeepsTerms : Table ℕ Listing → Table ℕ Listing → Type 0
KeepsTerms ls ls' =
    (id : ℕ) (l' : Listing)
    → select id ls' ≡ some l'
    → (l : Listing) × (select id ls ≡ some l) × SameTerms l l'

pub record Framed (db db' : P2pDb) : Type 0 where
  pub ledger : db'.ledger ≡ db.ledger
  pub fee_rows :
      (c : Asset) → is_some (select c db'.admin_wallets) ≡ is_some (select c db.admin_wallets)
  pub terms : KeepsTerms db.listings db'.listings

SameTerms-refl : (l : Listing) → SameTerms l l
SameTerms-refl l = record { asset = refl; side = refl; funding_source = refl; fee_model = refl }

SameTerms-trans : {k l m : Listing} → SameTerms k l → SameTerms l m → SameTerms k m
SameTerms-trans s t = record {
  asset = t.asset ∙ s.asset;
  side = t.side ∙ s.side;
  funding_source = t.funding_source ∙ s.funding_source;
  fee_model = t.fee_model ∙ s.fee_model;
}

-- Nothing that is framed has changed.
pub Framed-same :
    {db db' : P2pDb}
    → db'.ledger ≡ db.ledger
    → db'.admin_wallets ≡ db.admin_wallets
    → db'.listings ≡ db.listings
    → Framed db db'
Framed-same ledger fees listings = record {
  ledger = ledger;
  fee_rows = λ c. ap (λ (f : Table Asset ℕ). is_some (select c f)) fees;
  terms = λ id l' h. (l', ap (select id) (sym listings) ∙ h, SameTerms-refl l');
}

pub Framed-trans : {d e f : P2pDb} → Framed d e → Framed e f → Framed d f
Framed-trans p q = record {
  ledger = q.ledger ∙ p.ledger;
  fee_rows = λ c. q.fee_rows c ∙ p.fee_rows c;
  terms = λ id l' h.
      let (l, at_e, later) = q.terms id l' h in
      let (k, at_d, before) = p.terms id l at_e in (k, at_d, SameTerms-trans before later);
}

-- The statement leaves them alone whenever it succeeds.
abbrev pub Frames : {A : Type 0} → Tx P2pDb A → Type 0
Frames {A} m = (s : P2pDb) (a : A) (t : P2pDb) → m s ≡ ok (a, t) → Framed s t

pub Frames-bind :
    {A B : Type 0} (m : Tx P2pDb A) (f : A → Tx P2pDb B)
    → Frames m
    → ((a : A) → Frames (f a))
    → Frames (m >>= f)
Frames-bind m f first rest s b u h =
    let (a, t, h0, k0) = bind-ok m f s h in Framed-trans (first s a t h0) (rest a t b u k0)

-- A method leaves them alone, however it ends.
pub Frames-transact :
    {A : Type 0} (m : Tx P2pDb A) (s : P2pDb) → Frames m → Framed s (transact m s).1
Frames-transact m s frames = elim (Result-cases (transact m s).0) [
  | inl (a, done) ↦ frames s a (transact m s).1 (transact-ok m s (ground arith))
  | inr (e, ended) ↦
      let same = transact-err m s ended in subst (Framed s) (sym same) (Framed-same refl refl refl)
]

pub lock_wallet-Frames : (user : ℕ) (a : Asset) → Frames (lock_wallet user a)
unfolding lock_wallet
lock_wallet-Frames user a s x t h = Framed-same (ground arith) (ground arith) (ground arith)

pub update_wallets-Frames :
    (user : ℕ) (a : Asset) (where_ : P2pWallet → Bool) (set : P2pWallet → P2pWallet)
    → Frames (update_wallets user a where_ set)
unfolding update_wallets
update_wallets-Frames user a where_ set s x t h =
    Framed-same (ground arith) (ground arith) (ground arith)

select-update-some :
    (i j : ℕ) (g : Listing → Listing) (rows : Table ℕ Listing) (l' : Listing)
    → ((l : Listing) → SameTerms l (g l))
    → select j (update i g rows) ≡ some l'
    → (l : Listing) × (select j rows ≡ some l) × SameTerms l l'
unfolding select update
select-update-some i j g [] l' keeps h = absurd (ground arith)
select-update-some i j g ((k, l) ∷ rows) l' keeps h = elim (Bool-cases (k == j)) [
  | inl here ↦ elim (Bool-cases (k == i)) [
    | inl set ↦
        let l'_is : g l ≡ l' = ground arith in
        (l, rw here refl, subst (SameTerms l) l'_is (keeps l))
    | inr unset ↦
        let l'_is : l ≡ l' = ground arith in
        (l, rw here refl, subst (SameTerms l) l'_is (SameTerms-refl l))
  ]
  | inr there ↦ elim (Bool-cases (k == i)) [
    | inl set ↦ (l', rw there (ground arith), SameTerms-refl l')
    | inr unset ↦
        let (m, at_j, same) = select-update-some i j g rows l' keeps (ground arith) in
        (m, rw there at_j, same)
  ]
]

pub update_listing-Frames :
    (id : ℕ) (set : Listing → Listing)
    → ((l : Listing) → SameTerms l (set l))
    → Frames (update_listing id set)
unfolding update_listing
update_listing-Frames id set keeps s x t h =
    let listings : t.listings ≡ update id set s.listings = ground arith in
    let same = Framed-same {db = s} {db' = s} refl refl refl in
    record {
      ledger = ground arith;
      fee_rows = λ c. ground arith;
      terms = λ j l' at_j.
          select-update-some id j set s.listings l' keeps (ap (select j) (sym listings) ∙ at_j);
    }
