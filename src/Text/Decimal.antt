-- ===== src/Text/Decimal.antt =====
-- math/big: `SetString(s, 10)` and `String` of a big.Int.
pub mod RoundTrip
use dex_backend.Base.{
  ℕ, zero, suc, ◌+◌, ◌-◌, ◌*◌, ◌/◌, ◌%◌, Bool, true, false, ◌&&◌, Option, none, some, [], ◌∷◌, ltb,
  leb, ◌==◌, if◌then◌else◌,
}
use mathlib.Core.Option
use dex_backend.Text.Bytes.{Str}

-- `negsuc n` is -(n + 1).
pub data ℤ : Type 0 where
  pos : ℕ → ℤ
  negsuc : ℕ → ℤ

abbrev pub negate : ℕ → ℤ
negate zero = pos 0
negate (suc n) = negsuc n

abbrev pub is_digit : ℕ → Bool
is_digit c = leb b'0' c && leb c b'9'

-- The digits behind those that spell `n`; any other byte is an error.
scan : Str → ℕ → Option ℕ
scan [] n = some n
scan (c ∷ s) n = if is_digit c then scan s (n * 10 + (c - b'0')) else none

-- One digit at least.
scan_number : Str → Option ℕ
unfolding scan
scan_number [] = none
scan_number (c ∷ s) = scan (c ∷ s) 0

unfoldable pub set_string : Str → Option ℤ
unfolding scan_number
set_string [] = none
set_string (c ∷ s) =
    if c == b'-'
    then Option.map negate (scan_number s)
    else if c == b'+'
    then Option.map pos (scan_number s)
    else Option.map pos (scan_number (c ∷ s))

-- The digits of `n` in front of `out`; `n + 1` rounds are enough.
unfoldable pub emit : ℕ → ℕ → Str → Str
emit zero n out = out
emit (suc fuel) n out =
    let digits = (b'0' + n % 10) ∷ out in
    let rest = emit fuel (n / 10) digits in if ltb n 10 then digits else rest

-- `String` of a number that is not negative.
unfoldable pub string : ℕ → Str
unfolding emit
string n = emit (n + 1) n []
