-- ===== src/P2p/Lifecycle/Turns.antt =====
-- Each call about an order does nothing or takes the order one step along the diagram.
use dex_backend.Base.{ℕ, ◌≡◌, refl, inl, inr, Bool, true, false, Option, some, arith}
use dex_backend.Base.Key.{nat_key}
use dex_backend.Result.{ok, Err, Result-cases}
use dex_backend.Text.Bytes.{Str}
use dex_backend.Table.{select}
use dex_backend.Tx.{Tx, transact}
use dex_backend.Tx.Laws.{bind-ok, query-bind, found-ok, transact-ok, transact-err}
use dex_backend.P2p.Schema.{
  OrderStatus, payment_made, completed, cancelled, appeal, Listing, Order, P2pDb,
}
use dex_backend.P2p.{find_order}
use dex_backend.P2p.Refund.Laws.{void, Refunded}
use dex_backend.P2p.Release.{may_release, release_order}
use dex_backend.P2p.Release.Laws.{Released, release_order_pays}
use dex_backend.P2p.Lifecycle.{Turn, releases, rules_release, Turned, Outcome, IsSound}

pub Refunded-Turned :
    (id : ℕ) (o : Order) (l : Listing) (reason : Str) (by : Option ℕ) (db db' : P2pDb)
    → select id db.orders ≡ some o
    → Turn o.status cancelled
    → Refunded id o l cancelled reason by db db'
    → Turned id db db'
Refunded-Turned id o l reason by db db' at_id turn refunded = record {
  before = o;
  after = void cancelled reason by o;
  was = at_id;
  is = refunded.order;
  others = refunded.others;
  advanced = record {
    listing_id = refl;
    seller_id = refl;
    buyer_id = refl;
    asset = refl;
    amount = refl;
    buyer_fee = refl;
    seller_fee = refl;
    buyer_credit = refl;
    escrow = refl;
    turn = turn;
  };
  conserves = refunded.conserves;
  fee_rows = λ c. ground (arith, refunded.admin_wallets);
}

may_release-Turn : (admin : Bool) (s : OrderStatus) → may_release admin s ≡ true → Turn s completed
may_release-Turn false payment_made h = releases
may_release-Turn true appeal h = rules_release
may_release-Turn _ _ h = cc

pub Released-Turned :
    (admin : Bool) (id : ℕ) (o : Order) (db db' : P2pDb)
    → select id db.orders ≡ some o
    → may_release admin o.status ≡ true
    → Released id o db db'
    → Turned id db db'
Released-Turned admin id o db db' at_id may released = record {
  before = o;
  after = record o { escrow = 0; status = completed };
  was = at_id;
  is = released.order;
  others = released.others;
  advanced = record {
    listing_id = refl;
    seller_id = refl;
    buyer_id = refl;
    asset = refl;
    amount = refl;
    buyer_fee = refl;
    seller_fee = refl;
    buyer_credit = refl;
    escrow = refl;
    turn = may_release-Turn admin o.status may;
  };
  conserves = released.conserves;
  fee_rows = released.fee_rows;
}

-- A method does nothing or turns the order if it does so whenever it commits.
pub transact-Outcome :
    {A : Type 0} (id : ℕ) (m : Tx P2pDb A) (db : P2pDb)
    → ((a : A) (d : P2pDb) → m db ≡ ok (a, d) → Outcome id db d)
    → Outcome id db (transact m db).1
transact-Outcome id m db commits = elim (Result-cases (transact m db).0) [
  | inl (a, done) ↦ commits a (transact m db).1 (transact-ok m db (ground arith))
  | inr (e, ended) ↦ inl (transact-err m db ended)
]

-- The order that a call finds first.
pub find_order-ok :
    (id : ℕ) (e : Err) (db : P2pDb) {o : Order} {d : P2pDb}
    → find_order id e db ≡ ok (o, d)
    → (select id db.orders ≡ some o) × (d ≡ db)
find_order-ok id e db h = found-ok _ _ db (query-bind _ _ db h)

released_order :
    (seller id : ℕ) (admin : Bool) (db : P2pDb) {p : Order} {db' : P2pDb}
    → release_order seller id admin db ≡ (ok p, db')
    → (o : Order) × (select id db.orders ≡ some o)
unfolding release_order
released_order seller id admin db h =
    let (o, d, h0, k0) = bind-ok _ _ db (transact-ok _ db h) in (o, (find_order-ok id _ db h0).0)

-- A release that ends in an error or on a completed order does nothing.
pub release-Outcome :
    (seller id : ℕ) (admin : Bool) (db : P2pDb)
    → IsSound db
    → Outcome id db (release_order seller id admin db).1
release-Outcome seller id admin db sound =
    elim (Result-cases (release_order seller id admin db).0) [
      | inr (e, ended) ↦ inl (unfold release_order in transact-err _ db ended)
      | inl (p, done) ↦
          let run : release_order seller id admin db
              ≡ (ok p, (release_order seller id admin db).1) =
            ground arith in
          let (o, at_id) = released_order seller id admin db run in
          let (accounted, has) = sound id o at_id in
          let (_, outcome) = release_order_pays seller id admin o db at_id accounted has run in
          elim outcome [
            | inl (_, _, same) ↦ inl same
            | inr (may, _, released) ↦ inr (Released-Turned admin id o db _ at_id may released)
          ]
    ]
