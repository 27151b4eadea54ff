-- ===== src/Api/Engine.antt =====
-- What is told to the matching engine: `runBackfill` and `rawToHumanUnits` (internal/api/wallet.go)
-- and `reconcileOrderBalance` (internal/api/trade.go). The engine's replies are parameters.
pub mod Restored
pub mod Squared
use dex_backend.Base.{
  ℕ, zero, suc, ◌+◌, ◌-◌, ◌*◌, ◌^◌, Bool, true, false, not, ◌&&◌, Option, none, some, List, [], ◌∷◌,
  ◌==◌, ltb, if◌then◌else◌,
}
use mathlib.Core.Option
use dex_backend.Result.{Result, ok, err, Err}
use dex_backend.Text.Bytes.{Str, bytes, str_eq, to_upper}
use dex_backend.Text.Decimal.{ℤ, pos, negsuc, set_string, string}
use dex_backend.Text.Fixed.{float_string, trim_right, read_fixed}
use dex_backend.Asset.{Asset, name}
use dex_backend.Schema.{LedgerDb}
use dex_backend.Ledger.Reads.{balances_for, locked_balances_for, all_nonzero_balances}

-- `FloatString(6)` without the zeros at its end, and without a point at its end.
unfoldable pub trimmed : ℕ → Str
trimmed n = trim_right b'.' (trim_right b'0' (float_string 6 n))

human_units : Option ℤ → Option Str
unfolding trimmed
human_units none = none
human_units (some (pos n)) = some (trimmed n)
human_units (some (negsuc n)) = some (b'-' ∷ trimmed (suc n))

unfoldable pub raw_to_human_units : Str → Option Str
unfolding human_units
raw_to_human_units raw = human_units (set_string raw)

-- The counters that are returned, and the credits that the engine took.
pub record Backfill : Type 0 where
  pub synced : ℕ
  pub failed : ℕ
  pub total : ℕ
  pub credits : List (ℕ × Asset × Str)

-- Whether the engine takes a credit.
abbrev pub Takes : Type 0
Takes = ℕ → Asset → Str → Bool

backfill_credit : Bool → ℕ → Asset → Str → Backfill → Backfill
backfill_credit false user a text b = record b { failed = suc b.failed; total = suc b.total }
backfill_credit true user a text b = record b {
  synced = suc b.synced;
  total = suc b.total;
  credits = (user, a, text) ∷ b.credits;
}

backfill_one : Takes → ℕ → Asset → Option Str → Backfill → Backfill
unfolding backfill_credit
backfill_one takes user a none b = record b { failed = suc b.failed; total = suc b.total }
backfill_one takes user a (some text) b = backfill_credit (takes user a text) user a text b

-- The loop, from its end.
unfoldable pub backfill : Takes → List (ℕ × Asset × ℕ) → Backfill
unfolding backfill_one
backfill takes [] = record { synced = 0; failed = 0; total = 0; credits = [] }
backfill takes ((user, a, x) ∷ rows) =
    backfill_one takes user a (raw_to_human_units (string x)) (backfill takes rows)

unfoldable pub run_backfill : Takes → LedgerDb → Backfill
run_backfill takes db = backfill takes (all_nonzero_balances db)

-- strings.SplitN(symbol, "-", 2), if it has two parts.
unfoldable pub split_symbol : Str → Option (Str × Str)
split_symbol [] = none
split_symbol (c ∷ s) =
    let rest = split_symbol s in
    if c == b'-' then some ([], s) else Option.map (λ p. (c ∷ p.0, p.1)) rest

-- strings.EqualFold, of ASCII texts.
abbrev pub equal_fold : Str → Str → Bool
equal_fold s t = str_eq (to_upper s) (to_upper t)

-- The leg that the order locks.
abbrev pub leg : Str → Str → Str → Str → Str
leg market side base quote =
    if equal_fold side (bytes "SELL") && not (equal_fold market (bytes "FUTURES"))
    then base
    else quote

-- A map from the names of the assets.
unfoldable pub find_column : Str → List (Asset × ℕ) → Option ℕ
find_column key [] = none
find_column key ((a, x) ∷ rest) = if str_eq (name a) key then some x else find_column key rest

pub data EngineCall : Type 0 where
  credit debit : ℕ → Str → Str → EngineCall

-- The sign of total - locked - available decides; all in units of 10 ^ -18.
unfoldable pub delta_call : ℕ → Str → ℕ → ℕ → ℕ → Option EngineCall
delta_call user asset total locked available =
    if ltb (locked + available) total
    then some (credit user asset (float_string 18 (total - (locked + available))))
    else if ltb total (locked + available)
    then some (debit user asset (float_string 18 (locked + available - total)))
    else none

-- The amounts that were read, a six-decimal one of the database in units of 10 ^ -6.
reconcile_amounts : ℕ → Str → Option ℕ → Option ℕ → Option ℕ → Result (Option EngineCall)
unfolding delta_call
reconcile_amounts user asset (some total) (some locked) (some available) =
    ok (delta_call user asset (total * 10 ^ 12) (locked * 10 ^ 12) available)
reconcile_amounts user asset _ _ _ = err Err.bad_engine_amount

abbrev read_or_none : ℕ → Option Str → Option ℕ
read_or_none k none = none
read_or_none k (some text) = read_fixed k text

-- The engine's text is one that `FloatString` prints of a balance of at most 18 decimals: any other
-- text is an error here, also one that big.Rat.SetString reads (a sign, an exponent, a fraction).
reconcile_raw : ℕ → Str → Str → Str → Option Str → Result (Option EngineCall)
unfolding reconcile_amounts
reconcile_raw user asset raw locked_raw available =
    reconcile_amounts user asset (read_or_none 6 (raw_to_human_units raw))
      (read_or_none 6 (raw_to_human_units locked_raw)) (read_or_none 18 available)

-- A missing key of the map of locked balances is the empty text.
abbrev text_of : Option ℕ → Str
text_of none = []
text_of (some n) = string n

reconcile_balance : ℕ → Str → Option ℕ → Option ℕ → Option Str → Result (Option EngineCall)
unfolding reconcile_raw
reconcile_balance user asset none locked available = err Err.unsupported_asset
reconcile_balance user asset (some total) locked available =
    reconcile_raw user asset (string total) (text_of locked) available

reconcile_leg : ℕ → Str → LedgerDb → Option Str → Result (Option EngineCall)
unfolding reconcile_balance
reconcile_leg user asset db available =
    reconcile_balance user asset (find_column (to_upper asset) (balances_for user db))
      (find_column (to_upper asset) (locked_balances_for user db)) available

reconcile_parts :
    ℕ → Str → Str → Option (Str × Str) → LedgerDb → Option Str → Result (Option EngineCall)
unfolding reconcile_leg
reconcile_parts user market side none db available = ok none
reconcile_parts user market side (some (base, quote)) db available =
    reconcile_leg user (leg market side base quote) db available

-- The call that is made, if any; its reply is what the source returns. `available` is the text that
-- the engine reports, and none if it cannot be asked.
unfoldable pub reconcile_order_balance :
    ℕ → Str → Str → Str → Option Str → LedgerDb → Result (Option EngineCall)
unfolding reconcile_parts
reconcile_order_balance user symbol market side available db =
    reconcile_parts user market side (split_symbol symbol) db available
