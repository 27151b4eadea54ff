-- ===== src/P2p/Expiry.antt =====
-- ExpirePendingOrders (internal/repo/p2p.go).
pub mod Laws
use dex_backend.Base.{ℕ, zero, suc, Bool, true, false, ◌&&◌, List, [], ◌∷◌, leb, ltb, if◌then◌else◌}
use dex_backend.Result.{Result, ok, err, Err}
use dex_backend.Text.Bytes.{Str, bytes}
use dex_backend.Table.{Table}
use dex_backend.P2p.Schema.{OrderStatus, pending_payment, Order, P2pDb}
use dex_backend.P2p.Orders.{cancel_order}

abbrev pub awaits_payment : OrderStatus → Bool
awaits_payment pending_payment = true
awaits_payment _ = false

-- status='pending_payment' AND expires_at<=now()
abbrev pub is_overdue : ℕ → Order → Bool
is_overdue now o = awaits_payment o.status && leb o.expires_at now

-- The time limits and ids of the orders that are overdue.
unfoldable pub overdue : ℕ → Table ℕ Order → List (ℕ × ℕ)
overdue now [] = []
overdue now ((id, o) ∷ rows) =
    let rest = overdue now rows in if is_overdue now o then (o.expires_at, id) ∷ rest else rest

-- ORDER BY expires_at
unfoldable pub sort_in : ℕ × ℕ → List (ℕ × ℕ) → List (ℕ × ℕ)
sort_in p [] = p ∷ []
sort_in p (q ∷ rest) = let later = sort_in p rest in if ltb q.0 p.0 then q ∷ later else p ∷ q ∷ rest

unfoldable pub by_time : List (ℕ × ℕ) → List (ℕ × ℕ)
unfolding sort_in
by_time [] = []
by_time (p ∷ rest) = sort_in p (by_time rest)

-- LIMIT
unfoldable pub first_ids : ℕ → List (ℕ × ℕ) → List ℕ
first_ids zero l = []
first_ids (suc n) [] = []
first_ids (suc n) ((t, id) ∷ rest) = id ∷ first_ids n rest

-- An order that was settled in the meantime is passed over; any other error ends the job.
unfoldable pub goes_on : Result Order → Bool
goes_on (ok o) = true
goes_on (err Err.invalid_state) = true
goes_on (err e) = false

error_of : Result Order → Result (Unit {0})
error_of (ok o) = ok tt
error_of (err e) = err e

abbrev pub expire_one : ℕ → P2pDb → Result Order × P2pDb
expire_one id = cancel_order 0 id true (bytes "payment window expired")

unfoldable pub expire_each : List ℕ → P2pDb → Result (Unit {0}) × P2pDb
unfolding goes_on error_of
expire_each [] db = (ok tt, db)
expire_each (id ∷ ids) db =
    let rest = expire_each ids (expire_one id db).1 in
    if goes_on (expire_one id db).0
    then rest
    else (error_of (expire_one id db).0, (expire_one id db).1)

unfoldable pub expire_pending_orders : ℕ → ℕ → P2pDb → Result (Unit {0}) × P2pDb
unfolding first_ids by_time overdue expire_each
expire_pending_orders now limit db =
    expire_each (first_ids limit (by_time (overdue now db.orders))) db
