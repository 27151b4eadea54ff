-- ===== src/P2p/Appeals/Turns.antt =====
-- Opening, dropping and resolving an appeal do nothing to an order or take it one step along the
-- diagram.
use dex_backend.Base.{ℕ, ◌≡◌, refl, ◌||◌, inl, inr, true, ltb, arith, Bool-cases, length}
use mathlib.Core.Path.{subst}
use dex_backend.Base.Key.{nat_key}
use dex_backend.Result.{ok}
use dex_backend.Text.Bytes.{Str, bytes, str_eq, trim_space, to_upper}
use dex_backend.Tx.Laws.{bind-ok, check-bind}
use dex_backend.P2p.Schema.{OrderStatus, payment_made, cancelled, appeal, Order, P2pDb}
use dex_backend.P2p.{update_order, insert_event}
use dex_backend.P2p.Refund.Laws.{refund_tx-Refunded}
use dex_backend.P2p.Holdings.{close-Closed}
use dex_backend.P2p.Lifecycle.{
  Turn, disputes, settles, rules_refund, Outcome, IsSound, set-Turned, Turned-same,
}
use dex_backend.P2p.Lifecycle.Turns.{
  Refunded-Turned, transact-Outcome, find_order-ok, release-Outcome,
}
use dex_backend.P2p.Appeals.{
  is_payment_made, is_appeal, in_appeal, without_appeal, appeal_tx, appeal_order, cancel_appeal,
  resolve_refund, resolve_as, resolve_appeal,
}

payment_made-Turn : (s : OrderStatus) → is_payment_made s ≡ true → Turn s appeal
payment_made-Turn payment_made h = disputes
payment_made-Turn _ h = cc

appeal-Turn : (s t : OrderStatus) → Turn appeal t → is_appeal s ≡ true → Turn s t
appeal-Turn appeal t turn h = turn
appeal-Turn _ t turn h = cc

appeal_tx-Outcome :
    (now user id : ℕ) (reason : Str) (db : P2pDb) {p : Order} {db' : P2pDb}
    → appeal_tx now user id reason db ≡ ok (p, db')
    → Outcome id db db'
unfolding appeal_tx
appeal_tx-Outcome now user id reason db {db' = db'} h =
    let (o, d, h0, k0) = bind-ok _ _ db h in
    let (at_id, same) = find_order-ok id _ db h0 in
    let (_, k1) = check-bind _ _ _ d k0 in
    let (made, k2) = check-bind _ _ _ d k1 in
    let (_, k3) = check-bind _ _ _ d k2 in
    let closed = close-Closed id (in_appeal user reason) _ _ _ d k3 in
    inr (
      set-Turned id (in_appeal user reason) o db db' at_id
        (record {
          listing_id = refl;
          seller_id = refl;
          buyer_id = refl;
          asset = refl;
          amount = refl;
          buyer_fee = refl;
          seller_fee = refl;
          buyer_credit = refl;
          escrow = refl;
          turn = payment_made-Turn o.status made;
        })
        refl (ground (arith, closed.wallets)) (ground (arith, closed.admin_wallets))
        (ground (arith, closed.orders)))

pub appeal-Outcome :
    (now user id : ℕ) (reason : Str) (db : P2pDb)
    → Outcome id db (appeal_order now user id reason db).1
unfolding appeal_order
appeal-Outcome now user id reason db =
    elim (Bool-cases (ltb (length (trim_space reason)) 3 || ltb 500 (length (trim_space reason)))) [
      | inl bad ↦ inl (ground arith)
      | inr good ↦ subst (Outcome id db) (ground arith) (
          transact-Outcome id (appeal_tx now user id (trim_space reason)) db
            λ p db' h. appeal_tx-Outcome now user id (trim_space reason) db h)
    ]

pub cancel_appeal-Outcome : (user id : ℕ) (db : P2pDb) → Outcome id db (cancel_appeal user id db).1
unfolding cancel_appeal update_order insert_event
cancel_appeal-Outcome user id db = transact-Outcome id _ db λ p db' h.
    let (o, d, h0, k0) = bind-ok _ _ db h in
    let (at_id, same) = find_order-ok id _ db h0 in
    let (in_dispute, k1) = check-bind _ _ _ d k0 in
    let (_, d1, h1, k2) = bind-ok _ _ d k1 in
    let (_, d2, h2, k3) = bind-ok _ _ d1 k2 in
    let (_, same') = find_order-ok id _ d2 k3 in
    inr (
      set-Turned id without_appeal o db db' at_id
        (record {
          listing_id = refl;
          seller_id = refl;
          buyer_id = refl;
          asset = refl;
          amount = refl;
          buyer_fee = refl;
          seller_fee = refl;
          buyer_credit = refl;
          escrow = refl;
          turn = appeal-Turn o.status payment_made settles (ground arith);
        })
        refl (ground arith) (ground arith) (ground arith))

resolve_refund-Outcome :
    (id : ℕ) (db : P2pDb) {p : Order} {db' : P2pDb}
    → resolve_refund id db ≡ ok (p, db')
    → Outcome id db db'
unfolding resolve_refund insert_event
resolve_refund-Outcome id db {db' = db'} h =
    let (o, d, h0, k0) = bind-ok _ _ db h in
    let (at_id, same) = find_order-ok id _ db h0 in
    let (in_dispute, k1) = check-bind _ _ _ d k0 in
    let (p, d1, h1, k2) = bind-ok _ _ d k1 in
    let (_, d2, h2, k3) = bind-ok _ _ d1 k2 in
    let (l, _, _, _, refunded) = refund_tx-Refunded id o cancelled _ _ d (ground arith) h1 in
    let turned =
      Refunded-Turned id o l _ _ d d1 (ground arith)
        (appeal-Turn o.status cancelled rules_refund in_dispute) refunded in
    subst (λ e. Outcome id e db') same
      (inr (Turned-same id turned (ground arith) (ground arith) (ground arith)))

pub resolve-Outcome :
    (id : ℕ) (resolution : Str) (db : P2pDb)
    → IsSound db
    → Outcome id db (resolve_appeal id resolution db).1
unfolding resolve_appeal resolve_as
resolve-Outcome id resolution db sound =
    let text = to_upper (trim_space resolution) in
    elim (Bool-cases (str_eq text (bytes "RELEASE"))) [
      | inl releases_it ↦ subst (Outcome id db) (ground arith) (release-Outcome 0 id true db sound)
      | inr other ↦ elim (Bool-cases (str_eq text (bytes "REFUND"))) [
        | inl refunds_it ↦
            subst (Outcome id db) (ground arith)
              (transact-Outcome id (resolve_refund id) db λ p db' h. resolve_refund-Outcome id db h)
        | inr neither ↦ inl (ground arith)
      ]
    ]
