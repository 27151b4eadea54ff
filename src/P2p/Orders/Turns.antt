-- ===== src/P2p/Orders/Turns.antt =====
-- Marking payment and cancelling do nothing to an order or take it one step along the diagram.
use dex_backend.Base.{
  ℕ, ◌≡◌, ◌∙◌, refl, sym, inl, inr, Bool, Option, none, some, ltb, arith, Bool-cases,
}
use mathlib.Core.Path.{subst}
use dex_backend.Base.Key.{nat_key}
use dex_backend.Result.{Result, ok, err}
use dex_backend.Text.Bytes.{Str}
use dex_backend.Table.{select}
use dex_backend.Tx.Laws.{bind-ok, query-bind, check-bind}
use dex_backend.P2p.Schema.{OrderStatus, pending_payment, payment_made, cancelled, Order, P2pDb}
use dex_backend.P2p.{update_order, insert_event, insert_message}
use dex_backend.P2p.Refund.Laws.{refund_tx-Refunded}
use dex_backend.P2p.Orders.{
  with_payment, mark_in_time, mark_too_late, mark_pending, mark_by_status, or_expired,
  mark_paid_with_attestation, cancel_tx, cancel_order,
}
use dex_backend.P2p.Orders.Laws.{cancel_by_status-cases}
use dex_backend.P2p.Lifecycle.{Turn, pays, lapses, Turned, Outcome, set-Turned}
use dex_backend.P2p.Lifecycle.Turns.{Refunded-Turned, transact-Outcome, find_order-ok}

cancel_tx-Outcome :
    (actor id : ℕ) (system : Bool) (reason : Str) (db : P2pDb) {p : Order} {db' : P2pDb}
    → cancel_tx actor id system reason db ≡ ok (p, db')
    → Outcome id db db'
unfolding cancel_tx
cancel_tx-Outcome actor id system reason db {db' = db'} h =
    let (o, d, h0, k0) = bind-ok _ _ db h in
    let (at_id, same) = find_order-ok id _ db h0 in
    let (may, k1) = check-bind _ _ _ d k0 in
    elim (cancel_by_status-cases id reason _ o o.status d k1) [
      | inl (_, _, unmoved) ↦ inl (unmoved ∙ same)
      | inr (waits, refunds) ↦
          let (l, _, _, _, refunded) =
            refund_tx-Refunded id o cancelled reason _ d (ground arith) refunds in
          subst (λ e. Outcome id e db') same
            (inr (
              Refunded-Turned id o l reason _ d db' (ground arith)
                (subst (λ s. Turn s cancelled) (sym waits) lapses) refunded))
    ]

pub cancel-Outcome :
    (actor id : ℕ) (system : Bool) (reason : Str) (db : P2pDb)
    → Outcome id db (cancel_order actor id system reason db).1
unfolding cancel_order
cancel-Outcome actor id system reason db =
    transact-Outcome id (cancel_tx actor id system reason) db
      λ p db' h. cancel_tx-Outcome actor id system reason db h

mark_in_time-Turned :
    (now buyer id : ℕ) (o : Order) (db : P2pDb) {p : Option Order} {db' : P2pDb}
    → select id db.orders ≡ some o
    → o.status ≡ pending_payment
    → mark_in_time now buyer id db ≡ ok (p, db')
    → Turned id db db'
unfolding mark_in_time update_order insert_event insert_message
mark_in_time-Turned now buyer id o db {db' = db'} at_id waits h =
    let (_, d1, h1, k1) = bind-ok _ _ db h in
    let (_, d2, h2, k2) = bind-ok _ _ d1 k1 in
    let (_, d3, h3, k3) = bind-ok _ _ d2 k2 in
    let (_, d4, h4, k4) = bind-ok _ _ d3 k3 in
    let (_, same) = find_order-ok id _ d3 h4 in
    set-Turned id (with_payment now) o db db' at_id
      (record {
        listing_id = refl;
        seller_id = refl;
        buyer_id = refl;
        asset = refl;
        amount = refl;
        buyer_fee = refl;
        seller_fee = refl;
        buyer_credit = refl;
        escrow = refl;
        turn = subst (λ s. Turn s payment_made) (sym waits) pays;
      })
      refl (ground arith) (ground arith) (ground arith)

mark_too_late-Turned :
    (buyer id : ℕ) (o : Order) (db : P2pDb) {p : Option Order} {db' : P2pDb}
    → select id db.orders ≡ some o
    → o.status ≡ pending_payment
    → mark_too_late buyer id o db ≡ ok (p, db')
    → Turned id db db'
unfolding mark_too_late
mark_too_late-Turned buyer id o db {db' = db'} at_id waits h =
    let (p, d, h0, k0) = bind-ok _ _ db h in
    let (l, _, _, _, refunded) = refund_tx-Refunded id o cancelled _ _ db at_id h0 in
    subst (Turned id db) (ground arith) (
      Refunded-Turned id o l _ _ db d at_id (subst (λ s. Turn s cancelled) (sym waits) lapses)
        refunded)

mark_by_status-Outcome :
    (now buyer id : ℕ) (attested : Bool) (o : Order) (s : OrderStatus) (db : P2pDb)
    {p : Option Order} {db' : P2pDb}
    → select id db.orders ≡ some o
    → o.status ≡ s
    → mark_by_status now buyer id attested o s db ≡ ok (p, db')
    → Outcome id db db'
unfolding mark_by_status mark_pending
mark_by_status-Outcome now buyer id attested o payment_made db at_id was h = inl (ground arith)
mark_by_status-Outcome now buyer id attested o pending_payment db {p} {db'} at_id was h =
    let (_, k0) = check-bind _ _ _ db h in
    let (_, k1) = check-bind _ _ _ db (query-bind _ _ db k0) in
    elim (Bool-cases (ltb now o.expires_at)) [
      | inl in_time ↦
          let run : mark_in_time now buyer id db ≡ ok (p, db') = ground arith in
          inr (mark_in_time-Turned now buyer id o db at_id was run)
      | inr late ↦
          let run : mark_too_late buyer id o db ≡ ok (p, db') = ground arith in
          inr (mark_too_late-Turned buyer id o db at_id was run)
    ]
mark_by_status-Outcome now buyer id attested o _ db at_id was h = cc

or_expired_tables : (r : Result (Option Order) × P2pDb) → (or_expired r).1 ≡ r.1
unfolding or_expired
or_expired_tables (ok (some o), db) = refl
or_expired_tables (ok none, db) = refl
or_expired_tables (err e, db) = refl

pub mark_paid-Outcome :
    (now buyer id : ℕ) (attested : Bool) (db : P2pDb)
    → Outcome id db (mark_paid_with_attestation now buyer id attested db).1
unfolding mark_paid_with_attestation
mark_paid-Outcome now buyer id attested db = subst (Outcome id db) (sym (or_expired_tables _)) (
    transact-Outcome id _ db λ p db' h.
      let (o, d, h0, k0) = bind-ok _ _ db h in
      let (at_id, same) = find_order-ok id _ db h0 in
      let (_, k1) = check-bind _ _ _ d k0 in
      subst (λ e. Outcome id e db') same
        (mark_by_status-Outcome now buyer id attested o o.status d (ground arith) refl k1))
