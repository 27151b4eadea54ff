-- ===== src/Api/Engine/Squared.antt =====
-- What reconciling does to the engine's available balance.
use dex_backend.Base.{
  ℕ, ◌+◌, ◌-◌, ◌*◌, ◌^◌, ◌<◌, ◌≡◌, refl, ap, ◌∙◌, Option, none, some, arith, inl, inr, Option-cases,
  ltb, Bool-cases,
}
use dex_backend.Base.Key.{nat_key}
use dex_backend.Result.{ok}
use dex_backend.Text.Bytes.{Str, to_upper}
use dex_backend.Text.Fixed.{float_string, read_fixed}
use dex_backend.Text.Fixed.RoundTrip.{read_fixed-float_string}
use dex_backend.Asset.{Asset, name, btc, usdc, usdt, bi, biusd, eth, sol, bnb}
use dex_backend.Table.{select}
use dex_backend.Schema.{LedgerDb}
use dex_backend.Ledger.Reads.{balances_for, locked_balances_for, all_columns, row_or_zeros}
use dex_backend.Ledger.Cells.{balance_of, locked_of}
use dex_backend.Api.Engine.{
  split_symbol, leg, find_column, EngineCall, credit, debit, delta_call, reconcile_amounts,
  reconcile_raw, reconcile_balance, reconcile_leg, reconcile_parts, reconcile_order_balance,
}
use dex_backend.Api.Engine.Restored.{raw_to_human_units-string, read_fixed-human}

-- The call moves `available` to total - locked: a credit adds what is missing, a debit takes what is
-- too much, of this user and asset, and none is made where they agree.
pub data Squares (user : ℕ) (asset : Str) (total locked available : ℕ)
    : Option EngineCall → Type 0 where
  agrees : locked + available ≡ total → Squares user asset total locked available none
  adds :
      {text : Str} (d : ℕ)
      → 0 < d
      → read_fixed 18 text ≡ some d
      → locked + (available + d) ≡ total
      → Squares user asset total locked available (some (credit user asset text))
  takes :
      {text : Str} (d : ℕ)
      → 0 < d
      → read_fixed 18 text ≡ some d
      → locked + available ≡ total + d
      → Squares user asset total locked available (some (debit user asset text))

printed : (d : ℕ) → read_fixed 18 (float_string 18 d) ≡ some d
printed d = read_fixed-float_string 17 d

delta_call-Squares :
    (user : ℕ) (asset : Str) (total locked available : ℕ)
    → Squares user asset total locked available (delta_call user asset total locked available)
unfolding delta_call
delta_call-Squares user asset total locked available =
    elim (Bool-cases (ltb (locked + available) total)) [
      | inl less ↦
          let d = total - (locked + available) in
          rw less (adds d (ground arith) (printed d) (ground arith))
      | inr not_less ↦ elim (Bool-cases (ltb total (locked + available))) [
        | inl more ↦
            let d = locked + available - total in
            rw (not_less, more) (takes d (ground arith) (printed d) (ground arith))
        | inr not_more ↦ rw (not_less, not_more) (agrees (ground arith))
      ]
    ]

find_column-all : (a : Asset) (f : Asset → ℕ) → find_column (name a) (all_columns f) ≡ some (f a)
unfolding find_column all_columns
find_column-all btc f = refl
find_column-all usdc f = refl
find_column-all usdt f = refl
find_column-all bi f = refl
find_column-all biusd f = refl
find_column-all eth f = refl
find_column-all sol f = refl
find_column-all bnb f = refl

row-balance :
    (u : ℕ) (a : Asset) (db : LedgerDb)
    → (row_or_zeros (select u db.user_balances)).balance a ≡ balance_of db u a
unfolding row_or_zeros balance_of
row-balance u a db = elim (Option-cases (select u db.user_balances)) [
  | inl absent ↦ ground arith
  | inr (r, present) ↦ ground arith
]

find-balance :
    (u : ℕ) (a : Asset) (db : LedgerDb)
    → find_column (name a) (balances_for u db) ≡ some (balance_of db u a)
unfolding balances_for
find-balance u a db =
    find_column-all a (row_or_zeros (select u db.user_balances)).balance
    ∙ ap some (row-balance u a db)

row-locked :
    (u : ℕ) (a : Asset) (db : LedgerDb)
    → (row_or_zeros (select u db.user_balances)).locked a ≡ locked_of db u a
unfolding row_or_zeros locked_of
row-locked u a db = elim (Option-cases (select u db.user_balances)) [
  | inl absent ↦ ground arith
  | inr (r, present) ↦ ground arith
]

find-locked :
    (u : ℕ) (a : Asset) (db : LedgerDb)
    → find_column (name a) (locked_balances_for u db) ≡ some (locked_of db u a)
unfolding locked_balances_for
find-locked u a db =
    find_column-all a (row_or_zeros (select u db.user_balances)).locked
    ∙ ap some (row-locked u a db)

-- With both columns found and the engine's text read, the amounts are compared in its units.
amounts-eq :
    (u : ℕ) (asset text : Str) (total locked available : ℕ)
    → read_fixed 18 text ≡ some available
    → reconcile_balance u asset (some total) (some locked) (some text)
      ≡ ok (delta_call u asset (total * 10 ^ 12) (locked * 10 ^ 12) available)
unfolding reconcile_balance reconcile_raw reconcile_amounts
amounts-eq u asset text total locked available read =
    rw
      (
        raw_to_human_units-string total,
        raw_to_human_units-string locked,
        read_fixed-human total,
        read_fixed-human locked,
        read,
      )
      refl

-- Before an order on a symbol of two legs, where the leg that it locks names a known asset and the
-- engine reports its available balance as a plain decimal text of at most 18 decimals, reconciling
-- ends well, with the one call, or none, that squares the engine's available balance with the
-- database's balance less what is locked, to the last decimal.
pub reconcile_order_balance-Squares :
    (u : ℕ) (a : Asset) (symbol market side base quote text : Str) (available : ℕ) (db : LedgerDb)
    → split_symbol symbol ≡ some (base, quote)
    → to_upper (leg market side base quote) ≡ name a
    → read_fixed 18 text ≡ some available
    → (call : Option EngineCall) × (reconcile_order_balance u symbol market side (some text) db
        ≡ ok call)
      × Squares u
          (leg market side base quote)
          (balance_of db u a * 10 ^ 12)
          (locked_of db u a * 10 ^ 12)
          available
          call
unfolding reconcile_order_balance reconcile_parts reconcile_leg
reconcile_order_balance-Squares u a symbol market side base quote text available db two named read =
    let asset = leg market side base quote in
    let total = balance_of db u a in
    let locked = locked_of db u a in
    (
      delta_call u asset (total * 10 ^ 12) (locked * 10 ^ 12) available,
      rw (two, named, find-balance u a db, find-locked u a db)
          (amounts-eq u asset text total locked available read),
      delta_call-Squares u asset (total * 10 ^ 12) (locked * 10 ^ 12) available,
    )
