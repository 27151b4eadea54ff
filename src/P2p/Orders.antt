-- ===== src/P2p/Orders.antt =====
-- MarkPaidWithAttestation, CancelOrder, CancelOrderWithReason and the cancellation of an order whose
-- payment window has passed (internal/repo/p2p.go). Times are in milliseconds.
pub mod Laws
pub mod Turns
use dex_backend.Base.{
  ℕ, suc, ◌+◌, not, ◌&&◌, ◌||◌, Bool, true, false, Option, none, some, List, [], ◌∷◌, ltb, ◌==◌,
  length, if◌then◌else◌,
}
use dex_backend.Base.Key.{nat_key}
use dex_backend.Result.{Result, ok, err, Err}
use dex_backend.Text.Bytes.{Str, bytes, trim_space}
use dex_backend.Tx.{Tx, ◌>>=◌, ◌>>◌, pure, query, check, fail, transact}
use dex_backend.P2p.Schema.{
  OrderStatus, pending_payment, payment_made, completed, cancelled, appeal, Order, EventKind,
  payment_marked, OrderEvent, P2pDb,
}
use dex_backend.P2p.{find_order, update_order, insert_event, insert_message}
use dex_backend.P2p.Refund.{refund_tx}

proof_count : ℕ → ℕ → List (ℕ × ℕ) → ℕ
proof_count order uploader [] = 0
proof_count order uploader ((o, u) ∷ proofs) =
    (if o == order && u == uploader then 1 else 0) + proof_count order uploader proofs

-- The update that marks payment: an appeal may be opened ten minutes later.
abbrev pub with_payment : ℕ → Order → Order
with_payment now o = record o {
  status = payment_made;
  buyer_own_account_attested = true;
  appeal_available_at = some (now + 600000);
}

unfoldable pub mark_in_time : ℕ → ℕ → ℕ → Tx P2pDb (Option Order)
mark_in_time now buyer id = do
  update_order id (with_payment now)
  insert_event (record { order_id = id; actor_id = some buyer; kind = payment_marked })
  insert_message id
      (bytes "Buyer marked the payment as completed. Seller must verify receipt before release.")
  o ← find_order id Err.no_rows
  pure (some o)

-- The payment window has passed: the refund is kept, and no order is returned.
unfoldable pub mark_too_late : ℕ → ℕ → Order → Tx P2pDb (Option Order)
mark_too_late buyer id o = do
  p ← refund_tx id o cancelled (bytes "payment window expired") (some buyer)
  pure none

unfoldable pub mark_pending : ℕ → ℕ → ℕ → Bool → Order → Tx P2pDb (Option Order)
unfolding mark_in_time mark_too_late proof_count
mark_pending now buyer id attested o = do
  check attested Err.not_attested
  proofs ← query (λ db. proof_count id buyer db.order_proofs)
  check (not (proofs == 0)) Err.no_proof
  if ltb now o.expires_at then mark_in_time now buyer id else mark_too_late buyer id o

unfoldable pub mark_by_status : ℕ → ℕ → ℕ → Bool → Order → OrderStatus → Tx P2pDb (Option Order)
unfolding mark_pending
mark_by_status now buyer id attested o payment_made = pure (some o)
mark_by_status now buyer id attested o pending_payment = mark_pending now buyer id attested o
mark_by_status now buyer id attested o _ = fail Err.invalid_state

-- `ErrP2PExpired` is returned after the commit.
unfoldable pub or_expired : Result (Option Order) × P2pDb → Result Order × P2pDb
or_expired (ok (some o), db) = (ok o, db)
or_expired (ok none, db) = (err Err.expired, db)
or_expired (err e, db) = (err e, db)

unfoldable pub mark_paid_with_attestation : ℕ → ℕ → ℕ → Bool → P2pDb → Result Order × P2pDb
unfolding or_expired mark_by_status
mark_paid_with_attestation now buyer id attested db = or_expired (
    transact
      (do
        o ← find_order id Err.order_not_found
        check (o.buyer_id == buyer) Err.forbidden
        mark_by_status now buyer id attested o o.status)
      db)

unfoldable pub cancel_by_status : ℕ → Str → ℕ → Order → OrderStatus → Tx P2pDb Order
cancel_by_status id reason by o cancelled = pure o
cancel_by_status id reason by o pending_payment = refund_tx id o cancelled reason (some by)
cancel_by_status id reason by o _ = fail Err.invalid_state

unfoldable pub cancel_tx : ℕ → ℕ → Bool → Str → Tx P2pDb Order
unfolding cancel_by_status
cancel_tx actor id system reason = do
  o ← find_order id Err.order_not_found
  check (system || o.buyer_id == actor) Err.forbidden
  cancel_by_status id reason (if system then o.buyer_id else actor) o o.status

-- `cancelOrder`; `system` is the expiry job, for which the buyer is the one who cancels.
unfoldable pub cancel_order : ℕ → ℕ → Bool → Str → P2pDb → Result Order × P2pDb
unfolding cancel_tx
cancel_order actor id system reason = transact (cancel_tx actor id system reason)

unfoldable pub cancel_order_with_reason : ℕ → ℕ → Str → P2pDb → Result Order × P2pDb
cancel_order_with_reason buyer id reason db =
    let text = trim_space reason in
    if ltb (length text) 3 || ltb 300 (length text)
    then (err Err.bad_reason, db)
    else cancel_order buyer id false text db
