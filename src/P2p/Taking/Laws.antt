-- ===== src/P2p/Taking/Laws.antt =====
-- An order that is created takes its part of the ad, and its escrow from the seller.
use dex_backend.Base.{
  ℕ, ◌-◌, ◌*◌, ◌≤◌, ◌≡◌, ◌≢◌, ap, ◌∙◌, ◌⊎◌, inl, inr, true, false, ◌&&◌, Option, none, some, ◌==◌,
  leb, ==_iff, arith, Bool-cases, Option-cases, if◌then◌else◌,
}
use mathlib.Core.Path.{subst, ap₂}
use dex_backend.Base.Key.{nat_key, pair_key}
use dex_backend.Result.{ok, Err}
use dex_backend.Text.Bytes.{Str}
use dex_backend.Text.{str_eq_iff}
use dex_backend.Text.Decimal.{string}
use dex_backend.Asset.Laws.{asset_key}
use dex_backend.Table.{select, insert, update}
use dex_backend.Tx.{◌>>=◌, found, pure}
use dex_backend.Tx.Laws.{
  bind-ok, query-bind, found-bind, given-bind, check-bind, check-ok, transact-ok,
}
use dex_backend.Ledger.{validate_positive_amount}
use dex_backend.Ledger.Transfers.Laws.{lock_user-eq}
use dex_backend.P2p.Schema.{filled, Method, PaymentAccount, Listing, Order, EntryKind, P2pDb}
use dex_backend.P2p.{update_listing, insert_wallet_entry, insert_event, insert_message}
use dex_backend.P2p.Methods.{method_key}
use dex_backend.P2p.Fiat.{p2p_fiat_value}
use dex_backend.P2p.Funding.{validate_idempotency_key}
use dex_backend.P2p.Funding.Steps.{on_ledger-ok}
use dex_backend.P2p.Listings.{is_active}
use dex_backend.P2p.Taking.{
  prior_of, choose_method, rounded, fits_limits, leaves_enough, order_fees, seller_of, taken,
  new_order, take_checks, record_order, place, take_listing, insert_order, take_ad, take_or_replay,
  create_order_with_payment,
}
use dex_backend.P2p.Taking.Funds.{Paid, Paid_rest, take_funds-Paid}

-- The ad `l` may be taken for `x`: it is another user's, active and has so much left; the value of
-- `x` lies within its limits; what is left is nothing or worth the lower limit; and its seller has
-- the account for the payment method, which is one of the ad's.
pub record Takes (taker : ℕ) (l : Listing) (x : ℕ) (selected : Str) (m : Method)
    (account : PaymentAccount) (db : P2pDb) : Type 0 where
  pub other : taker ≢ l.seller_id
  pub offered : choose_method selected l.payment_methods ≡ some m
  pub is_up : is_active l.status ≡ true
  pub enough : x ≤ l.remaining
  pub least : l.min_order ≤ rounded (x * l.price)
  pub most : rounded (x * l.price) ≤ l.max_order
  pub rest : (l.remaining ≡ x) ⊎ (l.min_order ≤ rounded ((l.remaining - x) * l.price))
  pub configured : select (seller_of l.side l.seller_id taker, m) db.payment_accounts ≡ some account

fiat_value-ok : (x price : ℕ) {v : ℕ} → p2p_fiat_value x price ≡ ok v → v ≡ x * price
unfolding p2p_fiat_value
fiat_value-ok x price h = ground arith

leaves_enough-ok :
    (l : Listing) (rest : ℕ) (db : P2pDb) {y : Unit {0}} {d : P2pDb}
    → leaves_enough l rest db ≡ ok (y, d)
    → (d ≡ db) × ((rest ≡ 0) ⊎ (l.min_order ≤ rounded (rest * l.price)))
unfolding leaves_enough
leaves_enough-ok l rest db h = elim (Bool-cases (rest == 0)) [
  | inl nothing ↦ (ground arith, inl (ground arith))
  | inr something ↦
      let (v, value, k) = given-bind _ _ db (rw something at h) in
      let (enough, same) = check-ok _ _ db k in
      let v_is = fiat_value-ok rest l.price value in (same, inr (ground (arith, ap rounded v_is)))
]

account-found :
    (row : Option PaymentAccount) (m : Method) (e : Err) (db : P2pDb) {m' : Method}
    {account : PaymentAccount} {d : P2pDb}
    → ◌>>=◌ {B = Method × PaymentAccount} (found row e) (λ a. pure (m, a)) db
      ≡ ok ((m', account), d)
    → (row ≡ some account) × (m ≡ m') × (d ≡ db)
account-found row m e db h = let (account, there, k) = found-bind row e _ db h in ground arith

take_checks-Takes :
    (taker : ℕ) (l : Listing) (x : ℕ) (selected : Str) (db : P2pDb) {m' : Method}
    {account' : PaymentAccount} {d : P2pDb}
    → take_checks taker l x selected db ≡ ok ((m', account'), d)
    → (d ≡ db) × Takes taker l x selected m' account' db
unfolding take_checks fits_limits
take_checks-Takes taker l x selected db {m'} {account'} {d} h =
    let (other, k0) = check-bind _ _ _ db h in
    let (m, offered, k1) = found-bind _ _ _ db k0 in
    let (up, k2) = check-bind _ _ _ db k1 in
    let (v, value, k3) = given-bind _ _ db k2 in
    let (fits, k4) = check-bind _ _ _ db k3 in
    let (_, d1, h1, k5) = bind-ok _ _ db k4 in
    let (same, rest) = leaves_enough-ok l (l.remaining - x) db h1 in
    let (configured, m_is, last) = account-found _ m _ d1 (query-bind _ _ d1 k5) in
    let v_is = fiat_value-ok x l.price value in
    let fits' : (leb l.min_order (rounded (x * l.price)) && leb (rounded (x * l.price)) l.max_order)
        ≡ true =
      subst (λ t. (leb l.min_order (rounded t) && leb (rounded t) l.max_order) ≡ true) v_is fits in
    (
      ground arith,
      record {
        other = ground arith;
        offered = ground arith;
        is_up = ground arith;
        enough = ground arith;
        least = ground arith;
        most = ground arith;
        rest = elim rest [ inl nothing ↦ inl (ground arith) | inr worth_it ↦ inr worth_it ];
        configured =
            subst
              (λ k.
                select (seller_of l.side l.seller_id taker, k) db.payment_accounts ≡ some account')
              m_is
              (subst
                (λ (e : P2pDb).
                  select (seller_of l.side l.seller_id taker, m) e.payment_accounts ≡ some account')
                same configured);
      },
    )

-- A new order `n` of `x` of the ad `l`, under `id`.
pub record Placed (now taker id x : ℕ) (raw selected key : Str) (n : ℕ) (o : Order) (db db' : P2pDb)
    : Type 0 where
  pub listing : Listing
  pub method : Method
  pub account : PaymentAccount
  pub fees : ℕ × ℕ × ℕ
  pub unused : prior_of taker key db.orders ≡ none
  pub is_there : select id db.listings ≡ some listing
  pub takes : Takes taker listing x selected method account db
  pub charged : order_fees listing.fee_model x raw ≡ ok fees
  pub order : o ≡ new_order now taker listing id x method account fees key
  pub paid :
      Paid
        (seller_of listing.side listing.seller_id taker)
        listing.asset
        x
        fees.2
        db
        (record db { ledger = db'.ledger; wallets = db'.wallets })
        listing.side
        listing.funding_source
  pub number : n ≡ db.next_id
  pub orders : db'.orders ≡ insert n o db.orders
  pub listings :
      db'.listings
      ≡ update id
          (λ l. record l {
            remaining = l.remaining - x;
            status = if l.remaining - x == 0 then filled else l.status;
          })
          db.listings
  pub admin_wallets : db'.admin_wallets ≡ db.admin_wallets

record_order-ok :
    (o : Order) (kind : EntryKind) (db : P2pDb) {n : ℕ} {d : P2pDb}
    → record_order o kind db ≡ ok (n, d)
    → (n ≡ db.next_id)
      × (d.orders ≡ insert n o db.orders)
      × (d.listings ≡ db.listings)
      × (d.admin_wallets ≡ db.admin_wallets)
      × (d.wallets ≡ db.wallets)
      × (d.ledger ≡ db.ledger)
unfolding record_order insert_order insert_wallet_entry insert_event insert_message
record_order-ok o kind db h =
    let (id, d1, h1, k1) = bind-ok _ _ db h in
    let (_, d2, h2, k2) = bind-ok _ _ d1 k1 in
    let (_, d3, h3, k3) = bind-ok _ _ d2 k2 in
    let (_, d4, h4, k4) = bind-ok _ _ d3 k3 in
    (ground arith, ground arith, ground arith, ground arith, ground arith, ground arith)

-- What `place` does.
record Done (id x : ℕ) (u : ℕ) (l : Listing) (debit n : ℕ) (o : Order) (db db' : P2pDb)
    : Type 0 where
  paid :
      Paid u l.asset x debit db
        (record db { ledger = db'.ledger; wallets = db'.wallets })
        l.side
        l.funding_source
  number : n ≡ db.next_id
  orders : db'.orders ≡ insert n o db.orders
  listings : db'.listings ≡ update id (taken x) db.listings
  admin_wallets : db'.admin_wallets ≡ db.admin_wallets

place-Done :
    (now taker id x : ℕ) (key : Str) (l : Listing) (m : Method) (account : PaymentAccount)
    (fees : ℕ × ℕ × ℕ) (db : P2pDb) {n : ℕ} {o : Order} {db' : P2pDb}
    → place now taker id x key l m account fees db ≡ ok ((n, o), db')
    → (o ≡ new_order now taker l id x m account fees key)
      × Done id x (seller_of l.side l.seller_id taker) l fees.2 n o db db'
unfolding place update_listing
place-Done now taker id x key l m account fees db {n} {o} {db'} h =
    let u = seller_of l.side l.seller_id taker in
    let (_, d1, h1, k1) = bind-ok _ _ db h in
    let (_, d2, h2, k2) = bind-ok _ _ d1 k1 in
    let (i, d3, h3, k3) = bind-ok _ _ d2 k2 in
    let paid = take_funds-Paid l.side l.funding_source u l.asset x fees.2 db h1 in
    let rest = Paid_rest u l.asset x fees.2 db d1 paid in
    let (i_is, orders, listings, admin_wallets, wallets, ledger) = record_order-ok _ _ d2 h3 in
    let i_n : i ≡ n = ground arith in
    let o_is : o ≡ new_order now taker l id x m account fees key = ground arith in
    let ledger' : d1.ledger ≡ db'.ledger = ground arith in
    let wallets' : d1.wallets ≡ db'.wallets = ground arith in
    let d1_is : d1 ≡ record db { ledger = db'.ledger; wallets = db'.wallets } =
      rest ∙ ap₂ (λ l w. record db { ledger = l; wallets = w }) ledger' wallets' in
    (
      o_is,
      record {
        paid = subst (λ e. Paid u l.asset x fees.2 db e l.side l.funding_source) d1_is paid;
        number = ground (arith, rest);
        orders = ground (arith, rest);
        listings = ground (arith, rest);
        admin_wallets = ground (arith, rest);
      },
    )

take_listing-Placed :
    (now taker id x : ℕ) (raw selected key : Str) (l : Listing) (db : P2pDb) {n : ℕ} {o : Order}
    {db' : P2pDb}
    → prior_of taker key db.orders ≡ none
    → select id db.listings ≡ some l
    → take_listing now taker id x raw selected key l db ≡ ok ((n, o), db')
    → Placed now taker id x raw selected key n o db db'
unfolding take_listing
take_listing-Placed now taker id x raw selected key l db {n} {o} {db'} unused there h =
    let ((m, account), d1, h1, k1) = bind-ok (take_checks taker l x selected) _ db h in
    let (same, takes) = take_checks-Takes taker l x selected db h1 in
    let (fees, charged, k2) = given-bind _ _ d1 k1 in
    let run : place now taker id x key l m account fees db ≡ ok ((n, o), db') =
      subst (λ (e : P2pDb). place now taker id x key l m account fees e ≡ ok ((n, o), db')) same
        k2 in
    let (order, done) = place-Done now taker id x key l m account fees db run in
    record {
      listing = l;
      method = m;
      account = account;
      fees = fees;
      unused = unused;
      is_there = there;
      takes = takes;
      charged = charged;
      order = order;
      paid = done.paid;
      number = done.number;
      orders = done.orders;
      listings = done.listings;
      admin_wallets = done.admin_wallets;
    }

-- The request was made before: its order, whose amount prints as the text given, is returned.
pub record Repeated (taker id : ℕ) (raw key : Str) (n : ℕ) (o : Order) (db db' : P2pDb)
    : Type 0 where
  pub prior : prior_of taker key db.orders ≡ some (n, o)
  pub same_ad : o.listing_id ≡ id
  pub same_amount : string o.amount ≡ raw
  pub unchanged : db' ≡ db

take_or_replay-cases :
    (now taker id x : ℕ) (raw selected key : Str) (db : P2pDb) {n : ℕ} {o : Order} {db' : P2pDb}
    → take_or_replay now taker id x raw selected key (prior_of taker key db.orders) db
      ≡ ok ((n, o), db')
    → Placed now taker id x raw selected key n o db db' ⊎ Repeated taker id raw key n o db db'
unfolding take_or_replay take_ad
take_or_replay-cases now taker id x raw selected key db {n} {o} {db'} h =
    elim (Option-cases (prior_of taker key db.orders)) [
      | inl new ↦
          let run : take_or_replay now taker id x raw selected key none db ≡ ok ((n, o), db') =
            rw new at h in
          let (l, there, k) = found-bind _ _ _ db (query-bind _ _ db run) in
          inl (take_listing-Placed now taker id x raw selected key l db new there k)
      | inr ((i, p), used) ↦
          let run : take_or_replay now taker id x raw selected key (some (i, p)) db
              ≡ ok ((n, o), db') =
            rw used at h in
          let (fits, k) = check-bind _ _ _ db run in
          let i_is : i ≡ n = ground arith in
          let p_is : p ≡ o = ground arith in
          inr (record {
            prior = used ∙ ap₂ (λ (j : ℕ) (q : Order). some (j, q)) i_is p_is;
            same_ad = ground (arith, ==_iff p.listing_id id);
            same_amount = ground (arith, str_eq_iff (string p.amount) raw);
            unchanged = ground arith;
          })
    ]

-- An order request that succeeds has read a positive amount and its key. Either the key is new: the
-- ad is another user's, active, has the amount left, offers the payment method and lets the order's
-- value and what it leaves through its limits; the seller, who has an account for the method, paid
-- the escrow out of the wallet, the ad's reservation or the locked main balance; the ad has so much
-- less left and is filled at nothing; and the order returned, pending for fifteen minutes, is the
-- one row added. Or the taker has used the key for the same ad and an amount printed as the text
-- given: that order is returned, and nothing changes.
pub create_order_with_payment_places :
    (now taker id : ℕ) (raw selected idempotency_key : Str) (db : P2pDb) {n : ℕ} {o : Order}
    {db' : P2pDb}
    → create_order_with_payment now taker id raw selected idempotency_key db ≡ (ok (n, o), db')
    → (x : ℕ) × (key : Str) × (validate_positive_amount raw ≡ ok x)
      × (validate_idempotency_key idempotency_key false ≡ ok key)
      × (Placed now taker id x raw selected key n o db db' ⊎ Repeated taker id raw key n o db db')
unfolding create_order_with_payment
create_order_with_payment_places now taker id raw selected idempotency_key db {n} {o} {db'} h =
    let (x, amount_read, k0) = given-bind _ _ db (transact-ok _ db h) in
    let (key, key_read, k1) = given-bind _ _ db k0 in
    let (_, d1, h1, k2) = bind-ok _ _ db k1 in
    let (locks, d1_is) = on_ledger-ok _ db h1 in
    let same : d1 ≡ db = ground (arith, lock_user-eq taker db.ledger locks) in
    let run : take_or_replay now taker id x raw selected key (prior_of taker key db.orders) db
        ≡ ok ((n, o), db') =
      subst
        (λ (e : P2pDb).
          take_or_replay now taker id x raw selected key (prior_of taker key e.orders) e
          ≡ ok ((n, o), db'))
        same (query-bind _ _ d1 k2) in
    (x, key, amount_read, key_read, take_or_replay-cases now taker id x raw selected key db run)
