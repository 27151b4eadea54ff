-- ===== src/P2p/Appeals.antt =====
-- AppealOrder and CancelAppeal (internal/repo/p2p_workflow.go), and ResolveAppeal
-- (internal/repo/p2p.go). Times are in milliseconds.
pub mod Turns
use dex_backend.Base.{
  ℕ, not, ◌&&◌, ◌||◌, Bool, true, false, Option, none, some, ltb, ◌==◌, length, if◌then◌else◌,
}
use dex_backend.Base.Key.{nat_key}
use dex_backend.Result.{Result, ok, err, Err}
use dex_backend.Text.Bytes.{Str, bytes, str_eq, to_upper, trim_space}
use dex_backend.Tx.{Tx, ◌>>=◌, ◌>>◌, pure, check, transact}
use dex_backend.P2p.Schema.{
  OrderStatus, pending_payment, payment_made, completed, cancelled, appeal, Order, EventKind,
  appeal_opened, appeal_cancelled, appeal_resolved, OrderEvent, P2pDb,
}
use dex_backend.P2p.{find_order, update_order, insert_event, insert_message}
use dex_backend.P2p.Refund.{refund_tx}
use dex_backend.P2p.Release.{release_order}

abbrev pub is_payment_made : OrderStatus → Bool
is_payment_made payment_made = true
is_payment_made _ = false

abbrev pub is_appeal : OrderStatus → Bool
is_appeal appeal = true
is_appeal _ = false

-- `o.AppealAvailableAt != nil && time.Now().Before(*o.AppealAvailableAt)`
abbrev too_early : ℕ → Option ℕ → Bool
too_early now none = false
too_early now (some t) = ltb now t

-- `o.AppealedBy == userID`, where NULL is the empty text.
abbrev is_by : ℕ → Option ℕ → Bool
is_by user none = false
is_by user (some u) = u == user

abbrev pub in_appeal : ℕ → Str → Order → Order
in_appeal user reason o = record o {
  status = appeal;
  appealed_by = some user;
  appeal_reason = some reason;
}

abbrev pub without_appeal : Order → Order
without_appeal o = record o { status = payment_made; appealed_by = none; appeal_reason = none }

unfoldable pub appeal_tx : ℕ → ℕ → ℕ → Str → Tx P2pDb Order
appeal_tx now user id reason = do
  o ← find_order id Err.order_not_found
  check (o.buyer_id == user || o.seller_id == user) Err.forbidden
  check (is_payment_made o.status) Err.invalid_state
  check (not (too_early now o.appeal_available_at)) Err.appeal_early
  update_order id (in_appeal user reason)
  insert_event (record { order_id = id; actor_id = some user; kind = appeal_opened reason })
  insert_message id (bytes "An appeal was opened. Escrow remains locked for admin review.")
  find_order id Err.no_rows

unfoldable pub appeal_order : ℕ → ℕ → ℕ → Str → P2pDb → Result Order × P2pDb
unfolding appeal_tx
appeal_order now user id reason db =
    let text = trim_space reason in
    if ltb (length text) 3 || ltb 500 (length text)
    then (err Err.bad_reason, db)
    else transact (appeal_tx now user id text) db

unfoldable pub cancel_appeal : ℕ → ℕ → P2pDb → Result Order × P2pDb
cancel_appeal user id = transact do
  o ← find_order id Err.order_not_found
  check (is_appeal o.status && is_by user o.appealed_by) Err.forbidden
  update_order id without_appeal
  insert_event (record { order_id = id; actor_id = some user; kind = appeal_cancelled })
  find_order id Err.no_rows

-- The appeal is resolved in the seller's favour.
unfoldable pub resolve_refund : ℕ → Tx P2pDb Order
resolve_refund id = do
  o ← find_order id Err.order_not_found
  check (is_appeal o.status) Err.invalid_state
  p ← refund_tx id o cancelled (bytes "admin resolved appeal in seller's favor") none
  insert_event (record { order_id = id; actor_id = none; kind = appeal_resolved (bytes "REFUND") })
  pure p

unfoldable pub resolve_as : ℕ → Str → P2pDb → Result Order × P2pDb
unfolding resolve_refund
resolve_as id resolution db =
    if str_eq resolution (bytes "RELEASE")
    then release_order 0 id true db
    else if str_eq resolution (bytes "REFUND")
    then transact (resolve_refund id) db
    else (err Err.bad_resolution, db)

unfoldable pub resolve_appeal : ℕ → Str → P2pDb → Result Order × P2pDb
unfolding resolve_as
resolve_appeal id resolution = resolve_as id (to_upper (trim_space resolution))
