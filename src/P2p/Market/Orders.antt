-- ===== src/P2p/Market/Orders.antt =====
-- Each call about an order, statement by statement.
use dex_backend.Base.{
  ℕ, ◌+◌, ◌≡◌, ◌∙◌, refl, ap, sym, length, inl, inr, Bool, true, false, not, ◌&&◌, ◌||◌, Option,
  none, some, ltb, [], ◌∷◌, arith, Bool-cases,
}
use mathlib.Core.Path.{subst}
use dex_backend.Base.Key.{nat_key, pair_key}
use dex_backend.Result.{Result, ok, err, Err}
use dex_backend.Text.Bytes.{Str, bytes, str_eq, trim_space, to_upper}
use dex_backend.Asset.{Asset}
use dex_backend.Asset.Laws.{asset_key}
use dex_backend.Table.{Table, select, update}
use dex_backend.Ledger.{is_some}
use dex_backend.Tx.{pure, check, fail, query, found}
use dex_backend.P2p.Schema.{
  OrderStatus, pending_payment, payment_made, completed, cancelled, appeal, Listing, Order,
  OrderEvent, WalletEntry, AdminEntry, P2pDb,
}
use dex_backend.P2p.{find_order, update_order, insert_wallet_entry, insert_event, insert_message}
use dex_backend.P2p.Refund.{
  is_sell, is_withdrawn, is_p2p_wallet, reopen, return_to_ad, return_to_seller, give_back,
  refund_tx,
}
use dex_backend.P2p.Release.{
  credit_admin, insert_admin_entry, credit_fees, collect_fees, pay_out, release_once, release_order,
}
use dex_backend.P2p.Orders.{
  mark_in_time, mark_too_late, mark_pending, mark_by_status, or_expired, mark_paid_with_attestation,
  cancel_by_status, cancel_tx, cancel_order,
}
use dex_backend.P2p.Appeals.{
  appeal_tx, appeal_order, cancel_appeal, resolve_refund, resolve_as, resolve_appeal,
}
use dex_backend.P2p.Lifecycle.Runs.{OrderCall, perform}
use dex_backend.P2p.Market.Frames.{
  KeepsTerms, Framed, Framed-same, Frames, Frames-bind, Frames-transact, lock_wallet-Frames,
  update_wallets-Frames, update_listing-Frames,
}

check-Frames : (b : Bool) (e : Err) → Frames (check b e)
check-Frames true e s x t h = Framed-same (ground arith) (ground arith) (ground arith)
check-Frames false e s x t h = absurd (ground arith)

found-Frames : {A : Type 0} (o : Option A) (e : Err) → Frames (found o e)
found-Frames none e s x t h = absurd (ground arith)
found-Frames (some a) e s x t h = Framed-same (ground arith) (ground arith) (ground arith)

query-Frames : {A : Type 0} (f : P2pDb → A) → Frames (query f)
query-Frames f s x t h = Framed-same (ground arith) (ground arith) (ground arith)

pure-Frames : {A : Type 0} (a : A) → Frames (pure a)
pure-Frames a s x t h = Framed-same (ground arith) (ground arith) (ground arith)

find_order-Frames : (id : ℕ) (e : Err) → Frames (find_order id e)
find_order-Frames id e =
    Frames-bind _ _ (query-Frames (λ db. select id db.orders)) λ row. found-Frames row e

-- Statements of the logs, and of the orders' rows.
update_order-Frames : (id : ℕ) (set : Order → Order) → Frames (update_order id set)
unfolding update_order
update_order-Frames id set s x t h = Framed-same (ground arith) (ground arith) (ground arith)

entry-Frames : (e : WalletEntry) → Frames (insert_wallet_entry e)
unfolding insert_wallet_entry
entry-Frames e s x t h = Framed-same (ground arith) (ground arith) (ground arith)

event-Frames : (e : OrderEvent) → Frames (insert_event e)
unfolding insert_event
event-Frames e s x t h = Framed-same (ground arith) (ground arith) (ground arith)

message-Frames : (id : ℕ) (body : Str) → Frames (insert_message id body)
unfolding insert_message
message-Frames id body s x t h = Framed-same (ground arith) (ground arith) (ground arith)

reopen-Frames : (id x : ℕ) → Frames (reopen id x)
unfolding reopen
reopen-Frames id x =
    update_listing-Frames id _
      λ l. record { asset = refl; side = refl; funding_source = refl; fee_model = refl }

give_back-Frames : (o : Order) (l : Listing) → Frames (give_back o l)
unfolding give_back return_to_ad return_to_seller
give_back-Frames o l =
    elim (Bool-cases
      (is_sell l.side && is_p2p_wallet l.funding_source && not (is_withdrawn l.status))) [
        | inl up ↦ rw up (
            Frames-bind _ _ (update_wallets-Frames _ _ _ _)
              λ n. reopen-Frames o.listing_id o.amount)
        | inr down ↦ rw down (
            Frames-bind _ _ (update_wallets-Frames _ _ _ _) λ n.
              elim (Bool-cases (not (is_sell l.side) && not (is_withdrawn l.status))) [
                | inl buys ↦ rw buys (reopen-Frames o.listing_id o.amount)
                | inr sells ↦ rw sells (pure-Frames tt)
              ])
      ]

refund_tx-Frames :
    (id : ℕ) (o : Order) (final : OrderStatus) (reason : Str) (by : Option ℕ)
    → Frames (refund_tx id o final reason by)
unfolding refund_tx
refund_tx-Frames id o final reason by = Frames-bind _ _ (check-Frames _ _) λ _.
    Frames-bind _ _ (query-Frames _) λ row. Frames-bind _ _ (found-Frames row _) λ l.
      Frames-bind _ _ (lock_wallet-Frames o.seller_id o.asset) λ _.
        Frames-bind _ _ (give_back-Frames o l) λ _. Frames-bind _ _ (entry-Frames _) λ _.
          Frames-bind _ _ (update_order-Frames id _) λ _.
            Frames-bind _ _ (event-Frames _)
              λ _. Frames-bind _ _ (message-Frames id _) λ _. find_order-Frames id _

fee_rows-update :
    (a c : Asset) (x : ℕ) (fees : Table Asset ℕ)
    → is_some (select c (update a (λ f. f + x) fees)) ≡ is_some (select c fees)
unfolding select update
fee_rows-update a c x [] = refl
fee_rows-update a c x ((b, f) ∷ fees) = ground (arith, fee_rows-update a c x fees)

credit_admin-Frames : (a : Asset) (x : ℕ) → Frames (credit_admin a x)
unfolding credit_admin
credit_admin-Frames a x s y t h =
    let fees : t.admin_wallets ≡ update a (λ f. f + x) s.admin_wallets = ground arith in
    let same = Framed-same {db = s} {db' = s} refl refl refl in
    record {
      ledger = ground arith;
      fee_rows = λ c.
          ap (λ (f : Table Asset ℕ). is_some (select c f)) fees
          ∙ fee_rows-update a c x s.admin_wallets;
      terms =
          subst (KeepsTerms s.listings) {x = s.listings} {y = t.listings} (ground arith) same.terms;
    }

add_entry-Frames :
    (e : AdminEntry)
    → Frames (λ (db : P2pDb). ok (tt, record db { admin_entries = e ∷ db.admin_entries }))
add_entry-Frames e s x t h = Framed-same (ground arith) (ground arith) (ground arith)

collect_fees-Frames : (id : ℕ) (o : Order) → Frames (collect_fees id o)
unfolding collect_fees credit_fees insert_admin_entry
collect_fees-Frames id o = elim (Bool-cases (ltb 0 (o.buyer_fee + o.seller_fee))) [
  | inl some_fee ↦ rw some_fee (
      Frames-bind _ _ (credit_admin-Frames o.asset _) λ _.
        Frames-bind _ _ (query-Frames _)
          λ taken. Frames-bind _ _ (check-Frames _ _) λ _. add_entry-Frames _)
  | inr no_fee ↦ rw no_fee (pure-Frames tt)
]

pay_out-Frames : (seller id : ℕ) (admin : Bool) (o : Order) → Frames (pay_out seller id admin o)
unfolding pay_out
pay_out-Frames seller id admin o = Frames-bind _ _ (check-Frames _ _) λ _.
    Frames-bind _ _ (lock_wallet-Frames o.buyer_id o.asset) λ _.
      Frames-bind _ _ (update_wallets-Frames _ _ _ _) λ n. Frames-bind _ _ (entry-Frames _) λ _.
        Frames-bind _ _ (collect_fees-Frames id o) λ _.
          Frames-bind _ _ (update_order-Frames id _) λ _.
            Frames-bind _ _ (event-Frames _)
              λ _. Frames-bind _ _ (message-Frames id _) λ _. find_order-Frames id _

release_once-Frames :
    (seller id : ℕ) (admin : Bool) (o : Order) (s : OrderStatus)
    → Frames (release_once seller id admin o s)
unfolding release_once
release_once-Frames seller id admin o completed = pure-Frames o
release_once-Frames seller id admin o pending_payment = pay_out-Frames seller id admin o
release_once-Frames seller id admin o payment_made = pay_out-Frames seller id admin o
release_once-Frames seller id admin o cancelled = pay_out-Frames seller id admin o
release_once-Frames seller id admin o appeal = pay_out-Frames seller id admin o

release-Framed :
    (seller id : ℕ) (admin : Bool) (db : P2pDb) → Framed db (release_order seller id admin db).1
unfolding release_order
release-Framed seller id admin db = Frames-transact _ db (
    Frames-bind _ _ (find_order-Frames id _)
      λ o. Frames-bind _ _ (check-Frames _ _) λ _. release_once-Frames seller id admin o o.status)

fail-Frames : {A : Type 0} (e : Err) → Frames {A = A} (fail e)
fail-Frames e s x t h = absurd (ground arith)

mark_pending-Frames :
    (now buyer id : ℕ) (attested : Bool) (o : Order) → Frames (mark_pending now buyer id attested o)
unfolding mark_pending mark_in_time mark_too_late
mark_pending-Frames now buyer id attested o = Frames-bind _ _ (check-Frames _ _) λ _.
    Frames-bind _ _ (query-Frames _) λ proofs. Frames-bind _ _ (check-Frames _ _) λ _.
      elim (Bool-cases (ltb now o.expires_at)) [
        | inl early ↦ rw early (
            Frames-bind _ _ (update_order-Frames id _) λ _. Frames-bind _ _ (event-Frames _) λ _.
              Frames-bind _ _ (message-Frames id _)
                λ _. Frames-bind _ _ (find_order-Frames id _) λ p. pure-Frames (some p))
        | inr late ↦ rw late (Frames-bind _ _ (refund_tx-Frames id o _ _ _) λ p. pure-Frames none)
      ]

mark_by_status-Frames :
    (now buyer id : ℕ) (attested : Bool) (o : Order) (s : OrderStatus)
    → Frames (mark_by_status now buyer id attested o s)
unfolding mark_by_status
mark_by_status-Frames now buyer id attested o payment_made = pure-Frames (some o)
mark_by_status-Frames now buyer id attested o pending_payment =
    mark_pending-Frames now buyer id attested o
mark_by_status-Frames now buyer id attested o completed = fail-Frames Err.invalid_state
mark_by_status-Frames now buyer id attested o cancelled = fail-Frames Err.invalid_state
mark_by_status-Frames now buyer id attested o appeal = fail-Frames Err.invalid_state

or_expired-tables : (p : Result (Option Order) × P2pDb) → (or_expired p).1 ≡ p.1
unfolding or_expired
or_expired-tables (ok (some o), db) = refl
or_expired-tables (ok none, db) = refl
or_expired-tables (err e, db) = refl

mark_paid-Framed :
    (now buyer id : ℕ) (attested : Bool) (db : P2pDb)
    → Framed db (mark_paid_with_attestation now buyer id attested db).1
unfolding mark_paid_with_attestation
mark_paid-Framed now buyer id attested db = subst (Framed db) (sym (or_expired-tables _)) (
    Frames-transact _ db (
      Frames-bind _ _ (find_order-Frames id _) λ o.
        Frames-bind _ _ (check-Frames _ _)
          λ _. mark_by_status-Frames now buyer id attested o o.status))

cancel_by_status-Frames :
    (id : ℕ) (reason : Str) (by : ℕ) (o : Order) (s : OrderStatus)
    → Frames (cancel_by_status id reason by o s)
unfolding cancel_by_status
cancel_by_status-Frames id reason by o cancelled = pure-Frames o
cancel_by_status-Frames id reason by o pending_payment = refund_tx-Frames id o _ _ _
cancel_by_status-Frames id reason by o payment_made = fail-Frames Err.invalid_state
cancel_by_status-Frames id reason by o completed = fail-Frames Err.invalid_state
cancel_by_status-Frames id reason by o appeal = fail-Frames Err.invalid_state

pub cancel-Framed :
    (actor id : ℕ) (system : Bool) (reason : Str) (db : P2pDb)
    → Framed db (cancel_order actor id system reason db).1
unfolding cancel_order cancel_tx
cancel-Framed actor id system reason db = Frames-transact _ db (
    Frames-bind _ _ (find_order-Frames id _)
      λ o. Frames-bind _ _ (check-Frames _ _) λ _. cancel_by_status-Frames id reason _ o o.status)

appeal-Framed :
    (now user id : ℕ) (reason : Str) (db : P2pDb) → Framed db (appeal_order now user id reason db).1
unfolding appeal_order appeal_tx
appeal-Framed now user id reason db =
    let text = trim_space reason in
    elim (Bool-cases (ltb (length text) 3 || ltb 500 (length text))) [
      | inl bad ↦ rw bad (Framed-same refl refl refl)
      | inr fine ↦ rw fine (
          Frames-transact _ db (
            Frames-bind _ _ (find_order-Frames id _) λ o. Frames-bind _ _ (check-Frames _ _) λ _.
              Frames-bind _ _ (check-Frames _ _) λ _. Frames-bind _ _ (check-Frames _ _) λ _.
                Frames-bind _ _ (update_order-Frames id _) λ _.
                  Frames-bind _ _ (event-Frames _)
                    λ _. Frames-bind _ _ (message-Frames id _) λ _. find_order-Frames id _))
    ]

cancel_appeal-Framed : (user id : ℕ) (db : P2pDb) → Framed db (cancel_appeal user id db).1
unfolding cancel_appeal
cancel_appeal-Framed user id db = Frames-transact _ db (
    Frames-bind _ _ (find_order-Frames id _) λ o. Frames-bind _ _ (check-Frames _ _) λ _.
      Frames-bind _ _ (update_order-Frames id _)
        λ _. Frames-bind _ _ (event-Frames _) λ _. find_order-Frames id _)

resolve-Framed :
    (id : ℕ) (resolution : Str) (db : P2pDb) → Framed db (resolve_as id resolution db).1
unfolding resolve_as resolve_refund
resolve-Framed id resolution db = elim (Bool-cases (str_eq resolution (bytes "RELEASE"))) [
  | inl releases ↦ rw releases (release-Framed 0 id true db)
  | inr other ↦ elim (Bool-cases (str_eq resolution (bytes "REFUND"))) [
    | inl refunds ↦
        rw (other, refunds)
          (Frames-transact _ db (
            Frames-bind _ _ (find_order-Frames id _) λ o. Frames-bind _ _ (check-Frames _ _) λ _.
              Frames-bind _ _ (refund_tx-Frames id o _ _ _)
                λ p. Frames-bind _ _ (event-Frames _) λ _. pure-Frames p))
    | inr neither ↦ rw (other, neither) (Framed-same refl refl refl)
  ]
]

-- No call about an order touches the main wallets, the terms of an ad or the set of fee wallets.
pub perform-Framed : (c : OrderCall) (db : P2pDb) → Framed db (perform c db)
unfolding resolve_appeal
perform-Framed (OrderCall.mark_paid now buyer id attested) db =
    mark_paid-Framed now buyer id attested db
perform-Framed (OrderCall.release seller id) db = release-Framed seller id false db
perform-Framed (OrderCall.cancel actor id system reason) db =
    cancel-Framed actor id system reason db
perform-Framed (OrderCall.open_appeal now user id reason) db = appeal-Framed now user id reason db
perform-Framed (OrderCall.drop_appeal user id) db = cancel_appeal-Framed user id db
perform-Framed (OrderCall.resolve id resolution) db =
    resolve-Framed id (to_upper (trim_space resolution)) db
