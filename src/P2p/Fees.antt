-- ===== src/P2p/Fees.antt =====
-- `p2pBIUSDSettlement` (internal/repo/p2p.go): the fee of one per cent on each side.
pub mod Laws
use dex_backend.Base.{ℕ, zero, suc, ◌+◌, ◌-◌, ◌/◌, ltb, Option, none, some, if◌then◌else◌}
use dex_backend.Result.{Result, ok, err, Err}
use dex_backend.Text.Bytes.{Str}
use dex_backend.Text.Decimal.{ℤ, pos, set_string}

-- The fee, what the buyer is credited and what the seller is debited.
abbrev split_fee : ℕ → ℕ → Result (ℕ × ℕ × ℕ)
split_fee amount fee =
    if ltb fee amount then ok (fee, amount - fee, amount + fee) else err Err.too_small

settle_amount : Option ℤ → Result (ℕ × ℕ × ℕ)
settle_amount (some (pos (suc n))) = split_fee (suc n) (suc n / 100)
settle_amount _ = err Err.not_positive

unfoldable pub p2p_biusd_settlement : Str → Result (ℕ × ℕ × ℕ)
unfolding settle_amount
p2p_biusd_settlement raw = settle_amount (set_string raw)
