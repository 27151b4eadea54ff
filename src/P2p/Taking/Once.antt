-- ===== src/P2p/Taking/Once.antt =====
-- An order request that is sent again makes no second order.
use dex_backend.Base.{
  false, Option, none, ℕ, ◌≡◌, refl, sym, ap, ◌∙◌, inl, inr, true, ◌&&◌, some, ◌∷◌, ◌==◌, ==_iff,
  arith,
}
use mathlib.Core.Path.{subst}
use dex_backend.Base.Key.{nat_key}
use dex_backend.Result.{ok}
use dex_backend.Text.Bytes.{Str, str_eq}
use dex_backend.Text.{str_eq_iff}
use dex_backend.Text.Decimal.{string}
use dex_backend.Text.Decimal.RoundTrip.{set_string-string}
use dex_backend.Asset.{Asset}
use dex_backend.Table.{select, insert}
use dex_backend.Schema.{User}
use dex_backend.Tx.{◌>>=◌, transact}
use dex_backend.Tx.Laws.{bind-ok, given-bind, check-ok, transact-ok}
use dex_backend.Ledger.{is_some, validate_positive_amount, lock_user}
use dex_backend.Ledger.Amounts.{positive_amount}
use dex_backend.P2p.Schema.{Side, FundingSource, Order, P2pDb}
use dex_backend.P2p.Funding.{on_ledger, validate_idempotency_key}
use dex_backend.P2p.Funding.Steps.{on_ledger-ok}
use dex_backend.P2p.Taking.{prior_of, new_order, take_or_replay, create_order_with_payment}
use dex_backend.P2p.Taking.Funds.{Paid}
use dex_backend.P2p.Taking.Laws.{Placed, create_order_with_payment_places}

-- The taker is a user.
taker_known :
    (now taker id : ℕ) (raw selected idempotency_key : Str) (db : P2pDb) {n : ℕ} {o : Order}
    {d : P2pDb}
    → create_order_with_payment now taker id raw selected idempotency_key db ≡ (ok (n, o), d)
    → is_some (select taker db.ledger.users) ≡ true
unfolding create_order_with_payment lock_user
taker_known now taker id raw selected idempotency_key db h =
    let (x, _, k0) = given-bind _ _ db (transact-ok _ db h) in
    let (key, _, k1) = given-bind _ _ db k0 in
    let (_, d1, h1, _) = bind-ok _ _ db k1 in (check-ok _ _ db.ledger (on_ledger-ok _ db h1).0).0

Paid_users :
    (u : ℕ) (a : Asset) (x debit : ℕ) (db d : P2pDb) {side : Side} {source : FundingSource}
    → Paid u a x debit db d side source
    → d.ledger.users ≡ db.ledger.users
Paid_users u a x debit db d (Paid.by_taker source covered set) = ground (arith, set.rest)
Paid_users u a x debit db d (Paid.by_ad covered set) = ground (arith, set.rest)
Paid_users u a x debit db d (Paid.by_main balance lock wrote same) = wrote.keeps.users

prior-placed :
    (taker c : ℕ) (key : Str) (n : ℕ) (o : Order) (db : P2pDb)
    → o.taker_id ≡ taker
    → o.idempotency_key ≡ some (c ∷ key)
    → prior_of taker (c ∷ key) (insert n o db.orders) ≡ some (n, o)
unfolding prior_of insert
prior-placed taker c key n o db taker_is key_is =
    ground (arith, ==_iff o.taker_id taker, str_eq_iff (c ∷ key) (c ∷ key))

-- What the second request finds.
record Finds (taker id m : ℕ) (key : Str) (n : ℕ) (o : Order) (d : P2pDb) : Type 0 where
  known : is_some (select taker d.ledger.users) ≡ true
  prior : prior_of taker key d.orders ≡ some (n, o)
  same_ad : o.listing_id ≡ id
  same_amount : string o.amount ≡ string m

Placed-Finds :
    (now taker id x m c : ℕ) (selected key : Str) (n : ℕ) (o : Order) (db d : P2pDb)
    → x ≡ m
    → is_some (select taker db.ledger.users) ≡ true
    → Placed now taker id x (string m) selected (c ∷ key) n o db d
    → Finds taker id m (c ∷ key) n o d
unfolding new_order
Placed-Finds now taker id x m c selected key n o db d x_is known p = record {
  known =
      subst (λ us. is_some (select taker us) ≡ true) (sym (Paid_users _ _ x _ db _ p.paid)) known;
  prior =
      ap (prior_of taker (c ∷ key)) p.orders
      ∙ prior-placed taker c key n o db (ground (arith, p.order)) (ground (arith, p.order));
  same_ad = ground (arith, p.order);
  same_amount = ap string (ground (arith, p.order));
}

row_of : (o : Option User) → is_some o ≡ true → (u : User) × (o ≡ some u)
row_of none h = cc
row_of (some u) h = (u, refl)

repeat_run :
    (now taker id m x : ℕ) (selected idempotency_key key : Str) (n : ℕ) (o : Order) (d : P2pDb)
    → validate_positive_amount (string m) ≡ ok x
    → validate_idempotency_key idempotency_key false ≡ ok key
    → Finds taker id m key n o d
    → create_order_with_payment now taker id (string m) selected idempotency_key d ≡ (ok (n, o), d)
unfolding create_order_with_payment transact ◌>>=◌ take_or_replay on_ledger lock_user
repeat_run now taker id m x selected idempotency_key key n o d read key_read f =
    let fits : (o.listing_id == id && str_eq (string o.amount) (string m)) ≡ true = ground (
      arith,
      f.same_ad,
      f.same_amount,
      ==_iff o.listing_id id,
      str_eq_iff (string o.amount) (string m),
    ) in
    let (u, known) = row_of (select taker d.ledger.users) f.known in
    rw (read, key_read) (rw (known, transact) (rw (f.prior, transact) (rw (fits, transact) refl)))

-- After an order request with a key that is not blank succeeds, for an amount in canonical form, the
-- same taker's request with that key, ad and amount, at any later time and for any payment method,
-- returns the same order and changes nothing.
pub create_order_with_payment_once :
    (now later taker id m c : ℕ) (selected selected' idempotency_key key : Str) (db : P2pDb) {n : ℕ}
    {o : Order} {d : P2pDb}
    → validate_idempotency_key idempotency_key false ≡ ok (c ∷ key)
    → create_order_with_payment now taker id (string m) selected idempotency_key db ≡ (ok (n, o), d)
    → create_order_with_payment later taker id (string m) selected' idempotency_key d
      ≡ (ok (n, o), d)
create_order_with_payment_once now later taker id m c selected selected' idempotency_key key db {n}
      {o} {d} key_read h =
    let (x, key', read, key'_read, outcome) =
      create_order_with_payment_places now taker id (string m) selected idempotency_key db h in
    let x_is : x ≡ m =
      let (text, _) = positive_amount (string m) read in ground (arith, set_string-string m) in
    let key_is : key' ≡ c ∷ key = ground arith in
    let known = taker_known now taker id (string m) selected idempotency_key db h in
    let finds : Finds taker id m (c ∷ key) n o d = elim outcome [
      | inl p ↦
          Placed-Finds now taker id x m c selected key n o db d x_is known
            (subst (λ k. Placed now taker id x (string m) selected k n o db d) key_is p)
      | inr r ↦ record {
        known =
            subst (λ (e : P2pDb). is_some (select taker e.ledger.users) ≡ true) (sym r.unchanged)
              known;
        prior =
            subst (λ (e : P2pDb). prior_of taker (c ∷ key) e.orders ≡ some (n, o)) (sym r.unchanged)
              (subst (λ k. prior_of taker k db.orders ≡ some (n, o)) key_is r.prior);
        same_ad = r.same_ad;
        same_amount = r.same_amount;
      }
    ] in
    repeat_run later taker id m x selected' idempotency_key (c ∷ key) n o d read key_read finds
