-- ===== src/Api/Swaps.antt =====
-- Swap (internal/api/wallet.go). An error is answered with status 400.
pub mod Laws
use dex_backend.Base.{
  ℕ, ◌-◌, ◌*◌, ◌/◌, Bool, ◌&&◌, ◌||◌, not, Option, none, some, ◌==◌, if◌then◌else◌,
}
use dex_backend.Result.{Result, ok, err, Err}
use dex_backend.Text.Bytes.{Str, str_eq, trim_space, to_upper}
use dex_backend.Text.Decimal.{string}
use dex_backend.Asset.{usdt, usdc, biusd, name}
use dex_backend.Schema.{LedgerDb}
use dex_backend.Ledger.{validate_positive_amount}
use dex_backend.Ledger.Transfers.{swap_balance}
use dex_backend.Api.{Claims}

-- `amount`, `creditedAmount` and `feeAmount` of the response.
pub record SwapReply : Type 0 where
  pub amount : ℕ
  pub credited_amount : ℕ
  pub fee_amount : Option ℕ

abbrev pub swap_fee_bps_out : ℕ
swap_fee_bps_out = 100

-- `swapDestinations[source][destination]`
unfoldable pub swap_destinations : Str → Str → Bool
swap_destinations source destination =
    if str_eq source (name usdt)
    then str_eq destination (name biusd)
    else if str_eq source (name usdc)
    then str_eq destination (name biusd)
    else str_eq source (name biusd)
      && (str_eq destination (name usdt) || str_eq destination (name usdc))

-- The rate in basis points, if a fee is charged.
unfoldable pub swap_fee_rate : Str → Option ℕ
swap_fee_rate destination = if str_eq destination (name biusd) then none else some swap_fee_bps_out

-- `feeAmount`, and none where nothing is charged.
unfoldable pub fee_amount_of : Option ℕ → ℕ → Option ℕ
fee_amount_of none x = none
fee_amount_of (some bps) x = some (x * bps / 10000)

abbrev pub fee_or_zero : Option ℕ → ℕ
fee_or_zero none = 0
fee_or_zero (some fee) = fee

answer_swap : SwapReply → Result (Unit {0}) × LedgerDb → Result SwapReply × LedgerDb
answer_swap r (ok _, db) = (ok r, db)
answer_swap r (err x, db) = (err x, db)

unfoldable pub swap_amount : ℕ → Str → Str → Result ℕ → LedgerDb → Result SwapReply × LedgerDb
unfolding answer_swap
swap_amount user source destination (err x) db = (err x, db)
swap_amount user source destination (ok x) db =
    let fee = fee_amount_of (swap_fee_rate destination) x in
    let credited = x - fee_or_zero fee in
    if credited == 0
    then (err Err.fee_exceeds, db)
    else answer_swap (record { amount = x; credited_amount = credited; fee_amount = fee })
        (swap_balance user source (string x) destination (string credited) db)

unfoldable pub swap_assets : ℕ → Str → Str → Str → LedgerDb → Result SwapReply × LedgerDb
swap_assets user amount source destination db =
    if str_eq source destination
    then (err Err.same_asset, db)
    else if not (swap_destinations source destination)
    then (err Err.no_such_swap, db)
    else swap_amount user source destination (validate_positive_amount amount) db

unfoldable pub swap : Option Claims → Str → Str → Str → LedgerDb → Result SwapReply × LedgerDb
swap none amount source destination db = (err Err.not_authenticated, db)
swap (some c) amount source destination db =
    swap_assets c.user_id amount (to_upper (trim_space source)) (to_upper (trim_space destination))
      db
