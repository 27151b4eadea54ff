-- ===== src/P2p/Expiry/Laws/Cancels.antt =====
-- One order of the expiry job.
use dex_backend.Base.{
  ℕ, ◌≡◌, ◌≢◌, ◌∙◌, refl, ap, sym, inl, inr, Bool, true, false, not, ◌&&◌, Option, none, some, ◌==◌,
  ==_iff, arith, Bool-cases, Option-cases,
}
use mathlib.Core.Path.{subst}
use dex_backend.Base.Key.{nat_key, pair_key}
use dex_backend.Result.{ok, err, Err, Result-cases}
use dex_backend.Text.Bytes.{Str, bytes}
use dex_backend.Asset.{Asset}
use dex_backend.Asset.Laws.{asset_key}
use dex_backend.Table.{select}
use dex_backend.Tx.{Tx, ◌>>=◌, transact, found}
use dex_backend.P2p.Schema.{
  OrderStatus, pending_payment, cancelled, P2pWallet, Listing, Order, P2pDb,
}
use dex_backend.P2p.{
  lock_wallet, update_wallets, update_listing, update_order, insert_wallet_entry, insert_event,
  insert_message,
}
use dex_backend.P2p.Refund.{refund_tx, give_back}
use dex_backend.P2p.Refund.Laws.{void, Refunded}
use dex_backend.P2p.Orders.{cancel_by_status, cancel_tx, cancel_order}
use dex_backend.P2p.Orders.Laws.{cancel_order_refunds}
use dex_backend.P2p.Orders.Turns.{cancel-Outcome}
use dex_backend.P2p.Lifecycle.{
  Turn, pays, lapses, releases, disputes, settles, rules_release, rules_refund, Turned, Outcome,
}
use dex_backend.P2p.Expiry.{awaits_payment, goes_on, expire_one}

-- The order with the id, if there is one, does not wait for a payment with an escrow.
abbrev pub Settled : ℕ → P2pDb → Type 0
Settled id db =
    (o : Order)
    → select id db.orders ≡ some o
    → (awaits_payment o.status && not (o.escrow == 0)) ≡ false

-- The statement does not end in an invalid state.
abbrev Proceeds : {A : Type 0} → Tx P2pDb A → Type 0
Proceeds m = (s : P2pDb) → m s ≢ err Err.invalid_state

Proceeds-bind :
    {A B : Type 0} (m : Tx P2pDb A) (f : A → Tx P2pDb B)
    → Proceeds m
    → ((a : A) → Proceeds (f a))
    → Proceeds (m >>= f)
unfolding ◌>>=◌
Proceeds-bind m f first rest s h = elim (Result-cases (m s)) [
  | inl ((a, t), done) ↦ rest a t (ground arith)
  | inr (x, ended) ↦ first s (ground arith)
]

lock_wallet-Proceeds : (user : ℕ) (a : Asset) → Proceeds (lock_wallet user a)
unfolding lock_wallet
lock_wallet-Proceeds user a s h = ground arith

update_wallets-Proceeds :
    (user : ℕ) (a : Asset) (where_ : P2pWallet → Bool) (set : P2pWallet → P2pWallet)
    → Proceeds (update_wallets user a where_ set)
unfolding update_wallets
update_wallets-Proceeds user a where_ set s h = ground arith

give_back-Proceeds : (o : Order) (l : Listing) → Proceeds (give_back o l)
unfolding give_back update_listing ◌>>=◌ update_wallets
give_back-Proceeds o l s h = ground arith

found-Proceeds : {A : Type 0} (row : Option A) → Proceeds (found row Err.no_rows)
found-Proceeds none s h = cc
found-Proceeds (some a) s h = cc

refund_tx-Proceeds :
    (id : ℕ) (o : Order) (final : OrderStatus) (reason : Str) (by : Option ℕ)
    → (o.escrow == 0) ≡ false
    → Proceeds (refund_tx id o final reason by)
unfolding refund_tx insert_wallet_entry update_order insert_event insert_message
refund_tx-Proceeds id o final reason by some_escrow =
    Proceeds-bind _ _ (λ s h. ground arith)
      λ _.
        Proceeds-bind _ _ (λ s h. cc)
          λ row. Proceeds-bind _ _ (found-Proceeds row) λ l.
            Proceeds-bind _ _ (lock_wallet-Proceeds o.seller_id o.asset) λ _.
              Proceeds-bind _ _ (give_back-Proceeds o l) λ _.
                Proceeds-bind _ _ (λ s h. cc)
                  λ _.
                    Proceeds-bind _ _ (λ s h. cc)
                      λ _.
                        Proceeds-bind _ _ (λ s h. cc)
                          λ _.
                            Proceeds-bind _ _ (λ s h. cc)
                              λ _. Proceeds-bind _ _ (λ s h. cc) found-Proceeds

Turn-waits : {s t : OrderStatus} → Turn s t → awaits_payment t ≡ false
Turn-waits pays = refl
Turn-waits lapses = refl
Turn-waits releases = refl
Turn-waits disputes = refl
Turn-waits settles = refl
Turn-waits rules_release = refl
Turn-waits rules_refund = refl

Turned-Settled : (j id : ℕ) (db db' : P2pDb) → Turned j db db' → Settled id db → Settled id db'
Turned-Settled j id db db' t settled o at_id = elim (Bool-cases (j == id)) [
  | inl here ↦
      let j_is : j ≡ id = ground (arith, ==_iff j id) in
      let there : select id db'.orders ≡ some t.after =
        subst (λ k. select k db'.orders ≡ some t.after) j_is t.is in
      let o_is : o ≡ t.after = ground arith in
      let over = Turn-waits t.advanced.turn in rw o_is (ground arith)
  | inr elsewhere ↦ settled o (sym (t.others id elsewhere) ∙ at_id)
]

-- What is settled stays so, whatever a call about an order does.
pub Outcome-Settled :
    (j id : ℕ) (db db' : P2pDb) → Outcome j db db' → Settled id db → Settled id db'
Outcome-Settled j id db db' (inl same) settled = subst (Settled id) (sym same) settled
Outcome-Settled j id db db' (inr t) settled = Turned-Settled j id db db' t settled

-- The row of an order that was refunded.
Refunded-Settled :
    (id : ℕ) (o : Order) (l : Listing) (reason : Str) (by : Option ℕ) (db db' : P2pDb)
    → Refunded id o l cancelled reason by db db'
    → Settled id db'
Refunded-Settled id o l reason by db db' refunded p at_id =
    let row = refunded.order in
    let p_is : p ≡ void cancelled reason by o = ground arith in rw p_is refl

-- The run of a method depends on that of its statements only.
transact-same : (m n : Tx P2pDb Order) (db : P2pDb) → m db ≡ n db → transact m db ≡ transact n db
unfolding transact
transact-same m n db same = rw (same, transact) refl

by_status-waits :
    (id : ℕ) (reason : Str) (by : ℕ) (o : Order) (s : OrderStatus) (db : P2pDb)
    → s ≡ pending_payment
    → cancel_by_status id reason by o s db ≡ refund_tx id o cancelled reason (some by) db
unfolding cancel_by_status
by_status-waits id reason by o s db waits = rw waits refl

cancel_run :
    (id : ℕ) (reason : Str) (o : Order) (db : P2pDb)
    → select id db.orders ≡ some o
    → o.status ≡ pending_payment
    → cancel_order 0 id true reason db
      ≡ transact (refund_tx id o cancelled reason (some o.buyer_id)) db
unfolding cancel_order
cancel_run id reason o db at_id waits =
    transact-same (cancel_tx 0 id true reason) (refund_tx id o cancelled reason (some o.buyer_id))
      db (step ∙ by_status-waits id reason o.buyer_id o o.status db waits)
  where
    step : cancel_tx 0 id true reason db ≡ cancel_by_status id reason o.buyer_id o o.status db
    step = unfold cancel_tx ◌>>=◌ in rw (at_id, ◌>>=◌) refl

awaits-pending : (s : OrderStatus) → awaits_payment s ≡ true → s ≡ pending_payment
awaits-pending pending_payment h = refl
awaits-pending _ h = cc

going_on : (x : Err) → goes_on (err x) ≡ true → x ≡ Err.invalid_state
unfolding goes_on
going_on x h = ground arith

transact_ended : (m : Tx P2pDb Order) (s : P2pDb) {x : Err} → (transact m s).0 ≡ err x → m s ≡ err x
unfolding transact
transact_ended m s h = ground arith

-- An order that waits with an escrow: the refund went through, since no other error lets the job go on.
refund-Settled :
    (id : ℕ) (o : Order) (db : P2pDb)
    → select id db.orders ≡ some o
    → o.status ≡ pending_payment
    → (o.escrow == 0) ≡ false
    → goes_on (expire_one id db).0 ≡ true
    → Settled id (expire_one id db).1
unfolding goes_on
refund-Settled id o db at_id waits some_escrow going =
    let reason = bytes "payment window expired" in
    elim (Result-cases (expire_one id db).0) [
      | inl (p, done) ↦
          let run : expire_one id db ≡ (ok p, (expire_one id db).1) = ground arith in
          let (_, cases) = cancel_order_refunds 0 id true reason o db at_id run in
          elim cases [
            | inl (already, _, _) ↦ absurd (ground arith)
            | inr (_, (l, _, _, _, refunded)) ↦
                Refunded-Settled id o l reason (some o.buyer_id) db (expire_one id db).1 refunded
          ]
      | inr (x, ended) ↦
          let x_is : x ≡ Err.invalid_state =
            going_on x (subst (λ r. goes_on r ≡ true) ended going) in
          absurd (
            refund_tx-Proceeds id o cancelled reason (some o.buyer_id) some_escrow db (
              transact_ended (refund_tx id o cancelled reason (some o.buyer_id)) db (
                ap (λ p. p.0) (sym (cancel_run id reason o db at_id waits)) ∙ ended ∙ ap err x_is)))
    ]

-- If the job goes on after an order, that order is settled.
pub expire_one-Settled :
    (id : ℕ) (db : P2pDb) → goes_on (expire_one id db).0 ≡ true → Settled id (expire_one id db).1
expire_one-Settled id db going = elim (Option-cases (select id db.orders)) [
  | inl absent ↦ settled (λ o at_id. absurd (ground arith))
  | inr (o, at_id) ↦ elim (Bool-cases (awaits_payment o.status && not (o.escrow == 0))) [
    | inr quiet ↦ settled (λ p at_p. quiet_row o p at_id at_p quiet)
    | inl waits ↦
        refund-Settled id o db at_id (awaits-pending o.status (ground arith)) (ground arith) going
  ]
]
  where
    settled : Settled id db → Settled id (expire_one id db).1
    settled =
        Outcome-Settled id id db (expire_one id db).1
          (cancel-Outcome 0 id true (bytes "payment window expired") db)

    quiet_row :
        (o p : Order)
        → select id db.orders ≡ some o
        → select id db.orders ≡ some p
        → (awaits_payment o.status && not (o.escrow == 0)) ≡ false
        → (awaits_payment p.status && not (p.escrow == 0)) ≡ false
    quiet_row o p at_o at_p quiet = let p_is : p ≡ o = ground arith in rw p_is quiet
