-- ===== src/P2p/Lifecycle/Runs.antt =====
-- Any sequence of calls about orders, by their parties, the system and the admins.
use dex_backend.Base.{
  ℕ, ◌≡◌, ◌∙◌, refl, sym, ap, inl, inr, Bool, false, some, List, [], ◌∷◌, ◌==◌, ==_iff, arith,
  Bool-cases,
}
use mathlib.Core.Path.{subst}
use dex_backend.Base.Key.{nat_key}
use dex_backend.Text.Bytes.{Str}
use dex_backend.Asset.{Asset}
use dex_backend.Asset.Laws.{asset_key}
use dex_backend.Table.{select}
use dex_backend.P2p.Schema.{OrderStatus, Order, P2pDb}
use dex_backend.P2p.Release.{release_order}
use dex_backend.P2p.Release.Laws.{is_over, IsAccounted}
use dex_backend.P2p.Release.Collect.{HasFeeWallet}
use dex_backend.P2p.Holdings.{held}
use dex_backend.P2p.Orders.{mark_paid_with_attestation, cancel_order}
use dex_backend.P2p.Orders.Turns.{mark_paid-Outcome, cancel-Outcome}
use dex_backend.P2p.Appeals.{appeal_order, cancel_appeal, resolve_appeal}
use dex_backend.P2p.Appeals.Turns.{appeal-Outcome, cancel_appeal-Outcome, resolve-Outcome}
use dex_backend.P2p.Lifecycle.{
  Turn, pays, lapses, releases, disputes, settles, rules_release, rules_refund, Advanced, Turned,
  Outcome, IsSound,
}
use dex_backend.P2p.Lifecycle.Turns.{release-Outcome}

pub data OrderCall : Type 0 where
  mark_paid : ℕ → ℕ → ℕ → Bool → OrderCall
  release : ℕ → ℕ → OrderCall
  cancel : ℕ → ℕ → Bool → Str → OrderCall
  open_appeal : ℕ → ℕ → ℕ → Str → OrderCall
  drop_appeal : ℕ → ℕ → OrderCall
  resolve : ℕ → Str → OrderCall

abbrev order_of : OrderCall → ℕ
order_of (mark_paid now buyer id attested) = id
order_of (release seller id) = id
order_of (cancel actor id system reason) = id
order_of (open_appeal now user id reason) = id
order_of (drop_appeal user id) = id
order_of (resolve id resolution) = id

abbrev pub perform : OrderCall → P2pDb → P2pDb
perform (mark_paid now buyer id attested) db =
    (mark_paid_with_attestation now buyer id attested db).1
perform (release seller id) db = (release_order seller id false db).1
perform (cancel actor id system reason) db = (cancel_order actor id system reason db).1
perform (open_appeal now user id reason) db = (appeal_order now user id reason db).1
perform (drop_appeal user id) db = (cancel_appeal user id db).1
perform (resolve id resolution) db = (resolve_appeal id resolution db).1

unfoldable pub perform_all : List OrderCall → P2pDb → P2pDb
perform_all [] db = db
perform_all (c ∷ cs) db = perform_all cs (perform c db)

perform-Outcome : (c : OrderCall) (db : P2pDb) → IsSound db → Outcome (order_of c) db (perform c db)
perform-Outcome (mark_paid now buyer id attested) db sound =
    mark_paid-Outcome now buyer id attested db
perform-Outcome (release seller id) db sound = release-Outcome seller id false db sound
perform-Outcome (cancel actor id system reason) db sound = cancel-Outcome actor id system reason db
perform-Outcome (open_appeal now user id reason) db sound = appeal-Outcome now user id reason db
perform-Outcome (drop_appeal user id) db sound = cancel_appeal-Outcome user id db
perform-Outcome (resolve id resolution) db sound = resolve-Outcome id resolution db sound

Turn-open : {s t : OrderStatus} → Turn s t → is_over s ≡ false
Turn-open pays = refl
Turn-open lapses = refl
Turn-open releases = refl
Turn-open disputes = refl
Turn-open settles = refl
Turn-open rules_release = refl
Turn-open rules_refund = refl

Advanced-IsAccounted : {o o' : Order} → Advanced o o' → IsAccounted o → IsAccounted o'
Advanced-IsAccounted {o} {o'} a (_, backed) =
    let was = backed (Turn-open a.turn) in
    (
      λ over. ground (arith, a.escrow),
      λ goes_on. ground (arith, a.escrow, a.buyer_credit, a.buyer_fee, a.seller_fee),
    )

Turned-IsSound : (id : ℕ) {db db' : P2pDb} → Turned id db db' → IsSound db → IsSound db'
Turned-IsSound id {db} {db'} t sound j o at_j = elim (Bool-cases (id == j)) [
  | inl here ↦
      let j_is : j ≡ id = ground (arith, ==_iff id j) in
      let at_id : select id db'.orders ≡ some o =
        subst (λ k. select k db'.orders ≡ some o) j_is at_j in
      let o_is : t.after ≡ o = ground (arith, t.is) in
      let (accounted, has) = sound id t.before t.was in
      subst (λ p. IsAccounted p × HasFeeWallet db' p.asset) o_is
        (
          Advanced-IsAccounted t.advanced accounted,
          ground (arith, t.fee_rows t.before.asset, t.advanced.asset),
        )
  | inr there ↦
      let (accounted, has) = sound j o (ground (arith, t.others j there)) in
      (accounted, ground (arith, t.fee_rows o.asset))
]

-- After any calls in any order, from tables where every order's escrow is accounted for (nothing once
-- it is over, and before that the buyer's credit and both fees, which have a fee wallet to go to),
-- that is so again, and what the market holds of every asset is the same.
pub perform_all_conserves :
    (cs : List OrderCall) (db : P2pDb)
    → IsSound db
    → IsSound (perform_all cs db) × ((c : Asset) → held c (perform_all cs db) ≡ held c db)
unfolding perform_all
perform_all_conserves [] db sound = (sound, λ c. refl)
perform_all_conserves (call ∷ cs) db sound = elim (perform-Outcome call db sound) [
  | inl same ↦
      let (later, held_same) =
        perform_all_conserves cs (perform call db) (subst IsSound (sym same) sound) in
      (later, λ c. held_same c ∙ ap (held c) same)
  | inr turned ↦
      let (later, held_same) =
        perform_all_conserves cs (perform call db) (Turned-IsSound (order_of call) turned sound) in
      (later, λ c. held_same c ∙ turned.conserves c)
]

-- Zero or more steps of the diagram.
pub data Turns : OrderStatus → OrderStatus → Type 0 where
  stay : {s : OrderStatus} → Turns s s
  turn_then : {s t u : OrderStatus} → Turn s t → Turns t u → Turns s u

-- The same order, any number of steps further.
pub record Continues (o o' : Order) : Type 0 where
  pub listing_id : o'.listing_id ≡ o.listing_id
  pub seller_id : o'.seller_id ≡ o.seller_id
  pub buyer_id : o'.buyer_id ≡ o.buyer_id
  pub asset : o'.asset ≡ o.asset
  pub amount : o'.amount ≡ o.amount
  pub status : Turns o.status o'.status

Advanced-Continues : {a b c : Order} → Advanced a b → Continues b c → Continues a c
Advanced-Continues f d = record {
  listing_id = d.listing_id ∙ f.listing_id;
  seller_id = d.seller_id ∙ f.seller_id;
  buyer_id = d.buyer_id ∙ f.buyer_id;
  asset = d.asset ∙ f.asset;
  amount = d.amount ∙ f.amount;
  status = turn_then f.turn d.status;
}

-- After any calls in any order, from tables where every order's escrow is accounted for, an order is
-- still there, between the same parties
-- for the same amount of the same asset, and its status has only gone along the diagram: from pending
-- payment to payment made or cancelled, from payment made to completed or appeal, and from an appeal
-- back to payment made or to completed or cancelled.
pub perform_all-Continues :
    (cs : List OrderCall) (db : P2pDb) (id : ℕ) (o : Order)
    → IsSound db
    → select id db.orders ≡ some o
    → (o' : Order) × (select id (perform_all cs db).orders ≡ some o') × Continues o o'
unfolding perform_all
perform_all-Continues [] db id o sound at_id = (
  o,
  at_id,
  record {
    listing_id = refl;
    seller_id = refl;
    buyer_id = refl;
    asset = refl;
    amount = refl;
    status = stay;
  },
)
perform_all-Continues (call ∷ cs) db id o sound at_id = elim (perform-Outcome call db sound) [
  | inl same ↦
      perform_all-Continues cs (perform call db) id o (subst IsSound (sym same) sound)
        (subst (λ d. select id d.orders ≡ some o) (sym same) at_id)
  | inr turned ↦
      let later = Turned-IsSound (order_of call) turned sound in
      elim (Bool-cases (order_of call == id)) [
        | inl here ↦
            let id_is : order_of call ≡ id = ground (arith, ==_iff (order_of call) id) in
            let o_is : turned.before ≡ o = ground (arith, turned.was) in
            let at_after : select id (perform call db).orders ≡ some turned.after =
              ground (arith, turned.is) in
            let (o', there, goes) =
              perform_all-Continues cs (perform call db) id turned.after later at_after in
            (
              o',
              there,
              Advanced-Continues (subst (λ p. Advanced p turned.after) o_is turned.advanced) goes,
            )
        | inr other ↦
            perform_all-Continues cs (perform call db) id o later
              (ground (arith, turned.others id other))
      ]
]
