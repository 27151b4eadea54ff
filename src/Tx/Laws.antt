-- ===== src/Tx/Laws.antt =====
-- What a transaction that succeeded has done, step by step.
use dex_backend.Base.{◌≡◌, refl, Bool, true, false, Option, none, some, arith}
use dex_backend.Result.{Result, ok, err, Err}
use dex_backend.Tx.{Tx, ◌>>=◌, query, given, found, check, transact}

module _ {S A : Type 0} where
  -- The run of the first statement, and that of the rest from where it ended.
  pub bind-ok :
      {B : Type 0} (m : Tx S A) (f : A → Tx S B) (s : S) {b : B} {u : S}
      → (m >>= f) s ≡ ok (b, u)
      → (a : A) × (t : S) × (m s ≡ ok (a, t)) × (f a t ≡ ok (b, u))
  unfolding ◌>>=◌
  bind-ok m f s {b} {u} h = go (m s) refl h
    where
      go :
          (r : Result (A × S))
          → m s ≡ r
          → (elim r [ ok (a, t) ↦ f a t | err e ↦ err e ]) ≡ ok (b, u)
          → (a : A) × (t : S) × (m s ≡ ok (a, t)) × (f a t ≡ ok (b, u))
      go (ok (a, t)) e h = (a, t, e, h)
      go (err x) e h = cc

  -- A first statement that succeeds leaves the rest to run, and one that fails ends the whole.
  pub bind_run :
      {B : Type 0} (m : Tx S A) (f : A → Tx S B) (s : S) {a : A} {t : S}
      → m s ≡ ok (a, t)
      → (m >>= f) s ≡ f a t
  unfolding ◌>>=◌
  bind_run m f s h = rw (h, ◌>>=◌)

  pub bind-err :
      {B : Type 0} (m : Tx S A) (f : A → Tx S B) (s : S) {e : Err}
      → m s ≡ err e
      → (m >>= f) s ≡ err e
  unfolding ◌>>=◌
  bind-err m f s h = rw (h, ◌>>=◌)

  pub transact-ok :
      (m : Tx S A) (s : S) {a : A} {t : S} → transact m s ≡ (ok a, t) → m s ≡ ok (a, t)
  unfolding transact
  transact-ok m s h = ground arith

  -- A method that ends in an error has rolled back.
  pub transact-err :
      (m : Tx S A) (s : S) {e : Err} → (transact m s).0 ≡ err e → (transact m s).1 ≡ s
  unfolding transact
  transact-err m s h = ground arith

  pub given-ok :
      (r : Result A) (s : S) {a : A} {t : S} → given r s ≡ ok (a, t) → (r ≡ ok a) × (t ≡ s)
  given-ok (ok a) s h = ground arith
  given-ok (err e) s h = cc

  pub found-ok :
      (o : Option A) (x : Err) (s : S) {a : A} {t : S}
      → found o x s ≡ ok (a, t)
      → (o ≡ some a) × (t ≡ s)
  found-ok (some a) x s h = ground arith
  found-ok none x s h = cc

module _ {S : Type 0} where
  pub check-ok :
      (b : Bool) (x : Err) (s : S) {a : Unit {0}} {t : S}
      → check b x s ≡ ok (a, t)
      → (b ≡ true) × (t ≡ s)
  check-ok true x s h = ground arith
  check-ok false x s h = cc

-- A check in front: it has passed, and the rest runs on the same tables.
module _ {S A B : Type 0} where
  pub given-bind :
      (r : Result A) (f : A → Tx S B) (s : S) {b : B} {t : S}
      → (given r >>= f) s ≡ ok (b, t)
      → (a : A) × (r ≡ ok a) × (f a s ≡ ok (b, t))
  unfolding ◌>>=◌
  given-bind (ok a) f s h = (a, refl, h)
  given-bind (err e) f s h = cc

  pub found-bind :
      (o : Option A) (x : Err) (f : A → Tx S B) (s : S) {b : B} {t : S}
      → (found o x >>= f) s ≡ ok (b, t)
      → (a : A) × (o ≡ some a) × (f a s ≡ ok (b, t))
  unfolding ◌>>=◌
  found-bind (some a) x f s h = (a, refl, h)
  found-bind none x f s h = cc

  pub query-bind :
      (q : S → A) (f : A → Tx S B) (s : S) {b : B} {t : S}
      → (query q >>= f) s ≡ ok (b, t)
      → f (q s) s ≡ ok (b, t)
  unfolding ◌>>=◌
  query-bind q f s h = h

module _ {S B : Type 0} where
  pub check-bind :
      (c : Bool) (x : Err) (f : Unit {0} → Tx S B) (s : S) {b : B} {t : S}
      → (check c x >>= f) s ≡ ok (b, t)
      → (c ≡ true) × (f tt s ≡ ok (b, t))
  unfolding ◌>>=◌
  check-bind true x f s h = (refl, h)
  check-bind false x f s h = cc
