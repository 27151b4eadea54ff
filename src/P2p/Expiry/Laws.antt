-- ===== src/P2p/Expiry/Laws.antt =====
-- After the expiry job no order whose payment window has passed waits with an escrow.
pub mod Cancels
use dex_backend.Base.{
  ℕ, zero, suc, ◌≤◌, ◌≡◌, ◌∙◌, refl, ap, sym, ◌⊎◌, inl, inr, Bool, true, false, not, ◌&&◌, some,
  List, [], ◌∷◌, ◌==◌, ==_iff, leb, ltb, arith, Bool-cases, if◌then◌else◌,
}
use mathlib.Core.Path.{subst}
use dex_backend.Base.Key.{nat_key}
use dex_backend.Result.{Result, ok, err, Err, Result-cases}
use dex_backend.Text.Bytes.{bytes}
use dex_backend.Asset.{Asset}
use dex_backend.Table.{Table, select}
use dex_backend.P2p.Schema.{Order, P2pDb}
use dex_backend.P2p.Holdings.{held}
use dex_backend.P2p.Orders.{cancel_order}
use dex_backend.P2p.Orders.Turns.{cancel-Outcome}
use dex_backend.P2p.Lifecycle.{Outcome, IsSound}
use dex_backend.P2p.Lifecycle.Runs.{OrderCall, perform_all, perform_all_conserves}
use dex_backend.P2p.Expiry.{
  is_overdue, overdue, sort_in, by_time, first_ids, goes_on, error_of, expire_one, expire_each,
  expire_pending_orders,
}
use dex_backend.P2p.Expiry.Laws.Cancels.{Settled, Outcome-Settled, expire_one-Settled}

abbrev All : (ℕ → Type 0) → List ℕ → Type 0
All P [] = Unit {0}
All P (id ∷ ids) = P id × All P ids

abbrev AllIds : (ℕ → Type 0) → List (ℕ × ℕ) → Type 0
AllIds P [] = Unit {0}
AllIds P ((t, id) ∷ rest) = P id × AllIds P rest

abbrev pub size : List (ℕ × ℕ) → ℕ
size [] = 0
size (p ∷ rest) = suc (size rest)

-- Sorting and a large enough limit leave no id out.
AllIds-sort_in :
    (P : ℕ → Type 0) (t id : ℕ) (l : List (ℕ × ℕ))
    → AllIds P (sort_in (t, id) l)
    → P id × AllIds P l
unfolding sort_in
AllIds-sort_in P t id [] h = h
AllIds-sort_in P t id ((u, j) ∷ rest) h = elim (Bool-cases (ltb u t)) [
  | inl later ↦
      let parts : AllIds P ((u, j) ∷ sort_in (t, id) rest) =
        subst (AllIds P) {x = sort_in (t, id) ((u, j) ∷ rest)} {y = (u, j) ∷ sort_in (t, id) rest}
          (rw later refl) h in
      let (at_id, at_rest) = AllIds-sort_in P t id rest parts.1 in (at_id, (parts.0, at_rest))
  | inr now ↦
      subst (AllIds P) {x = sort_in (t, id) ((u, j) ∷ rest)} {y = (t, id) ∷ (u, j) ∷ rest}
        (rw now refl) h
]

AllIds-by_time : (P : ℕ → Type 0) (l : List (ℕ × ℕ)) → AllIds P (by_time l) → AllIds P l
unfolding by_time
AllIds-by_time P [] h = tt
AllIds-by_time P ((t, id) ∷ rest) h =
    let (at_id, others) = AllIds-sort_in P t id (by_time rest) h in
    (at_id, AllIds-by_time P rest others)

size-sort_in : (p : ℕ × ℕ) (l : List (ℕ × ℕ)) → size (sort_in p l) ≡ suc (size l)
unfolding sort_in
size-sort_in p [] = refl
size-sort_in p (q ∷ rest) = ground (arith, size-sort_in p rest)

size-by_time : (l : List (ℕ × ℕ)) → size (by_time l) ≡ size l
unfolding by_time
size-by_time [] = refl
size-by_time (p ∷ rest) = ground (arith, size-sort_in p (by_time rest), size-by_time rest)

All-first_ids :
    (P : ℕ → Type 0) (n : ℕ) (l : List (ℕ × ℕ)) → size l ≤ n → All P (first_ids n l) → AllIds P l
unfolding first_ids
All-first_ids P n [] h all = tt
All-first_ids P zero (p ∷ rest) h all = absurd (omega arith)
All-first_ids P (suc n) ((t, id) ∷ rest) h (at_id, others) =
    (at_id, All-first_ids P n rest (omega arith) others)

AllIds-overdue :
    (P : ℕ → Type 0) (now id : ℕ) (rows : Table ℕ Order) (o : Order)
    → AllIds P (overdue now rows)
    → select id rows ≡ some o
    → is_overdue now o ≡ true
    → P id
unfolding overdue select
AllIds-overdue P now id [] o all at_id late = absurd (ground arith)
AllIds-overdue P now id ((j, q) ∷ rows) o all at_id late = elim (Bool-cases (j == id)) [
  | inl here ↦
      let j_is : j ≡ id = ground (arith, ==_iff j id) in
      let q_late : is_overdue now q ≡ true = ground arith in
      let parts : AllIds P ((q.expires_at, j) ∷ overdue now rows) =
        subst (AllIds P) {x = overdue now ((j, q) ∷ rows)}
          {y = (q.expires_at, j) ∷ overdue now rows} (rw q_late refl) all in
      subst P j_is parts.0
  | inr there ↦
      AllIds-overdue P now id rows o
        (elim (Bool-cases (is_overdue now q)) [
          | inl q_late ↦
              let parts : AllIds P ((q.expires_at, j) ∷ overdue now rows) =
                subst (AllIds P) {x = overdue now ((j, q) ∷ rows)}
                  {y = (q.expires_at, j) ∷ overdue now rows} (rw q_late refl) all in
              parts.1
          | inr q_fine ↦
              subst (AllIds P) {x = overdue now ((j, q) ∷ rows)} {y = overdue now rows}
                (rw q_fine refl) all
        ])
        (ground arith) late
]

-- What the rest of the job does to an order that was seen to.
expire_each-keeps :
    (ids : List ℕ) (id : ℕ) (db : P2pDb) → Settled id db → Settled id (expire_each ids db).1
unfolding expire_each
expire_each-keeps [] id db settled = settled
expire_each-keeps (j ∷ ids) id db settled =
    let next =
      Outcome-Settled j id db (expire_one j db).1
        (cancel-Outcome 0 j true (bytes "payment window expired") db) settled in
    elim (Bool-cases (goes_on (expire_one j db).0)) [
      | inl going ↦ rw going (expire_each-keeps ids id (expire_one j db).1 next)
      | inr ended ↦ rw ended next
    ]

error_of-stops : (r : Result Order) → goes_on r ≡ false → error_of r ≡ ok tt → ⊥
unfolding goes_on error_of
error_of-stops (ok o) h e = cc
error_of-stops (err x) h e = cc

expire_each-Settled :
    (ids : List ℕ) (db : P2pDb)
    → (expire_each ids db).0 ≡ ok tt
    → All (λ id. Settled id (expire_each ids db).1) ids
unfolding expire_each
expire_each-Settled [] db done = tt
expire_each-Settled (id ∷ ids) db done = elim (Bool-cases (goes_on (expire_one id db).0)) [
  | inl going ↦
      let d = (expire_one id db).1 in
      let step : expire_each (id ∷ ids) db ≡ expire_each ids d = rw going refl in
      subst (λ (r : Result (Unit {0}) × P2pDb). All (λ j. Settled j r.1) (id ∷ ids)) (sym step)
        (
          expire_each-keeps ids id d (expire_one-Settled id db going),
          expire_each-Settled ids d (ap (λ (r : Result (Unit {0}) × P2pDb). r.0) (sym step) ∙ done),
        )
  | inr ended ↦ absurd (error_of-stops (expire_one id db).0 ended (ground arith))
]

expire_each_conserves :
    (ids : List ℕ) (db : P2pDb)
    → IsSound db
    → IsSound (expire_each ids db).1 × ((c : Asset) → held c (expire_each ids db).1 ≡ held c db)
unfolding expire_each
expire_each_conserves [] db sound = (sound, λ c. refl)
expire_each_conserves (id ∷ ids) db sound =
    let d = (expire_one id db).1 in
    let (next, held_next) : IsSound d × ((c : Asset) → held c d ≡ held c db) =
      unfold perform_all in
      perform_all_conserves (OrderCall.cancel 0 id true (bytes "payment window expired") ∷ []) db
        sound in
    let (later, held_later) = expire_each_conserves ids d next in
    elim (Bool-cases (goes_on (expire_one id db).0)) [
      | inl going ↦ rw going (later, λ c. held_later c ∙ held_next c)
      | inr ended ↦ rw ended (next, held_next)
    ]

-- If the expiry job ends well, from tables where every order's escrow is accounted for and with a limit
-- that is not below the number of overdue orders, then an order that was pending with its time up is
-- no longer pending with anything in escrow. Every order's escrow is accounted for again, and what the
-- market holds of every asset is the same.
pub expire_pending_orders-Settled :
    (now limit id : ℕ) (o : Order) (db : P2pDb)
    → IsSound db
    → (expire_pending_orders now limit db).0 ≡ ok tt
    → size (overdue now db.orders) ≤ limit
    → select id db.orders ≡ some o
    → is_overdue now o ≡ true
    → Settled id (expire_pending_orders now limit db).1
      × IsSound (expire_pending_orders now limit db).1
      × ((c : Asset) → held c (expire_pending_orders now limit db).1 ≡ held c db)
unfolding expire_pending_orders
expire_pending_orders-Settled now limit id o db sound done fits at_id late =
    let ids = first_ids limit (by_time (overdue now db.orders)) in
    let P : ℕ → Type 0 = λ j. Settled j (expire_each ids db).1 in
    let sorted =
      All-first_ids P limit (by_time (overdue now db.orders))
        (omega (arith, size-by_time (overdue now db.orders))) (expire_each-Settled ids db done) in
    let (later, held_same) = expire_each_conserves ids db sound in
    (
      AllIds-overdue P now id db.orders o (AllIds-by_time P (overdue now db.orders) sorted) at_id
          late,
      later,
      held_same,
    )
