-- ===== src/P2p/Fiat.antt =====
-- `p2pFiatValue` and `validateP2POrderLimits` (internal/repo/p2p.go). An amount has six decimals and a
-- price eight, so that their product is a value in units of 10^-14 INR, exactly.
pub mod Laws
use dex_backend.Base.{
  ℕ, ◌+◌, ◌*◌, ◌/◌, Bool, true, false, ◌||◌, Option, none, some, [], ltb, ◌==◌, if◌then◌else◌,
}
use dex_backend.Result.{Result, ok, err, Err}
use dex_backend.Text.Bytes.{Str, bytes, str_eq, trim_space}
use dex_backend.Text.Fixed.{float_string, read_fixed}

unfoldable pub p2p_fiat_value : ℕ → ℕ → Result ℕ
p2p_fiat_value amount price = if price == 0 then err Err.bad_price else ok (amount * price)

-- `FloatString(2)` of a value: hundredths of INR, the half rounded up.
unfoldable pub round_to_paise : ℕ → ℕ
round_to_paise v = (v + 500000000000) / 1000000000000

-- A limit that is blank takes the default.
abbrev or_default : Str → Str → Str
or_default s default = if str_eq (trim_space s) [] then default else s

-- `p2pFiatLimitPattern` lets through what `read_fixed 2` reads: one digit or more, and at most two
-- behind a point.
abbrev pub read_limit : Str → Option ℕ
read_limit s = read_fixed 2 (trim_space s)

check_limits : ℕ → Option ℕ → Option ℕ → Result (ℕ × ℕ)
check_limits total none maximum = err Err.bad_limit
check_limits total (some minimum) none = err Err.bad_limit
check_limits total (some minimum) (some maximum) =
    if minimum == 0 || maximum == 0
    then err Err.bad_limit
    else if ltb maximum minimum
    then err Err.limit_order
    else if ltb total maximum
    then err Err.limit_too_high
    else ok (minimum, maximum)

limits_within : ℕ → Str → Str → Result (ℕ × ℕ)
unfolding check_limits
limits_within total min_order max_order =
    check_limits total (read_limit (or_default min_order (bytes "0.01")))
      (read_limit (or_default max_order (float_string 2 total)))

limits_of : Result ℕ → Str → Str → Result (ℕ × ℕ)
unfolding limits_within
limits_of (ok v) min_order max_order = limits_within (round_to_paise v) min_order max_order
limits_of (err e) min_order max_order = err e

-- The limits in hundredths of INR.
unfoldable pub validate_p2p_order_limits : ℕ → ℕ → Str → Str → Result (ℕ × ℕ)
unfolding limits_of p2p_fiat_value
validate_p2p_order_limits amount price min_order max_order =
    limits_of (p2p_fiat_value amount price) min_order max_order
