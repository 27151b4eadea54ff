-- ===== src/Text/Fixed.antt =====
-- Numbers with a fixed count of decimals, as units of the last place: `FloatString(k)` of a big.Rat
-- that has at most `k` decimals, `strings.TrimRight` with a cutset of one byte, and reading a plain
-- decimal text exactly. (Texts with a sign, an exponent or a fraction bar are not such.)
pub mod RoundTrip
use dex_backend.Base.{
  ℕ, zero, suc, ◌+◌, ◌-◌, ◌*◌, ◌/◌, ◌%◌, ◌^◌, Bool, true, false, ◌&&◌, Option, none, some, List, [],
  ◌∷◌, ◌++◌, ◌==◌, if◌then◌else◌,
}
use dex_backend.Text.Bytes.{Str}
use dex_backend.Text.Decimal.{is_digit, string}

-- The last `k` digits of `n` in front of `out`.
unfoldable pub last_digits : ℕ → ℕ → Str → Str
last_digits zero n out = out
last_digits (suc k) n out = last_digits k (n / 10) ((b'0' + n % 10) ∷ out)

-- `FloatString(k)` of n / 10 ^ k, for k > 0.
unfoldable pub float_string : ℕ → ℕ → Str
unfolding last_digits string
float_string k n = string (n / 10 ^ k) ++ b'.' ∷ last_digits k n []

-- A byte in front of what is left of the rest: it goes too if nothing is left and it is in the cutset.
abbrev pub trim_cons : ℕ → ℕ → Str → Str
trim_cons cut c [] = if c == cut then [] else c ∷ []
trim_cons cut c (d ∷ s) = c ∷ d ∷ s

-- strings.TrimRight(s, cut)
unfoldable pub trim_right : ℕ → Str → Str
trim_right cut [] = []
trim_right cut (c ∷ s) = trim_cons cut c (trim_right cut s)

-- At most `k` digits behind the point; `n` is what was read before.
unfoldable pub read_fraction : ℕ → ℕ → Str → Option ℕ
read_fraction k n [] = some (n * 10 ^ k)
read_fraction zero n (c ∷ s) = none
read_fraction (suc k) n (c ∷ s) =
    if is_digit c then read_fraction k (n * 10 + (c - b'0')) s else none

unfoldable pub read_point : ℕ → ℕ → Str → Option ℕ
unfolding read_fraction
read_point k n [] = none
read_point k n (c ∷ s) = read_fraction k n (c ∷ s)

unfoldable pub read_whole : ℕ → ℕ → Str → Option ℕ
unfolding read_point
read_whole k n [] = some (n * 10 ^ k)
read_whole k n (c ∷ s) =
    if is_digit c
    then read_whole k (n * 10 + (c - b'0')) s
    else if c == b'.'
    then read_point k n s
    else none

-- One digit or more, and if a point follows, one to `k` digits more.
unfoldable pub read_fixed : ℕ → Str → Option ℕ
unfolding read_whole
read_fixed k [] = none
read_fixed k (c ∷ s) = if is_digit c then read_whole k 0 (c ∷ s) else none
