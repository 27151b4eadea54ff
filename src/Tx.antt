-- ===== src/Tx.antt =====
-- A database transaction: statements that read and write the tables, each of which may end it.
-- The repositories begin one by `pool.Begin`, defer `tx.Rollback` and end with `tx.Commit`
-- (internal/repo/ledger.go, internal/repo/p2p.go). Row locks (`FOR UPDATE`) make transactions
-- that touch the same rows run one after the other, so each runs alone here.
pub mod Laws
use dex_backend.Base.{Bool, true, false, Option, none, some}
use dex_backend.Result.{Result, ok, err, Err}

abbrev pub Tx : Type 0 → Type 0 → Type 0
Tx S A = S → Result (A × S)

infixl 5 ◌>>=◌ ◌>>◌
unfoldable pub ◌>>=◌ : {S A B : Type 0} → Tx S A → (A → Tx S B) → Tx S B
◌>>=◌ m f s = elim (m s) [ ok (a, t) ↦ f a t | err e ↦ err e ]

abbrev pub ◌>>◌ : {S B : Type 0} → Tx S (Unit {0}) → Tx S B → Tx S B
m >> k = m >>= λ _. k

module _ {S A : Type 0} where
  abbrev pub pure : A → Tx S A
  pure a s = ok (a, s)

  -- A query, which changes nothing.
  abbrev pub query : (S → A) → Tx S A
  query f s = ok (f s, s)

  -- The value of a check that reads no table.
  abbrev pub given : Result A → Tx S A
  given (ok a) s = ok (a, s)
  given (err e) s = err e

  abbrev pub found : Option A → Err → Tx S A
  found (some a) e s = ok (a, s)
  found none e s = err e

module _ {S : Type 0} where
  abbrev pub check : Bool → Err → Tx S (Unit {0})
  check true e s = ok (tt, s)
  check false e s = err e

  abbrev pub fail : {A : Type 0} → Err → Tx S A
  fail e s = err e

  -- Commit on success; on an error the deferred rollback leaves the tables as they were.
  unfoldable pub transact : {A : Type 0} → Tx S A → S → Result A × S
  transact m s = elim (m s) [ ok (a, t) ↦ (ok a, t) | err e ↦ (err e, s) ]
