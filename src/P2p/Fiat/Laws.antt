-- ===== src/P2p/Fiat/Laws.antt =====
-- The limits of an ad.
use dex_backend.Base.{
  ℕ, ◌*◌, ◌<◌, ◌≤◌, ◌≡◌, refl, ◌∙◌, ap, ◌⊎◌, true, Option, none, some, [], inl, inr, arith,
  Bool-cases,
}
use mathlib.Core.Path.{subst}
use dex_backend.Result.{Result, ok, err}
use dex_backend.Text.Bytes.{Str, bytes, str_eq, trim_space}
use dex_backend.Text.{trim_space_solid}
use dex_backend.Text.Fixed.{float_string, read_fixed}
use dex_backend.Text.Fixed.RoundTrip.{float_string-IsSolid, read_fixed-float_string}
use dex_backend.P2p.Fiat.{
  p2p_fiat_value, round_to_paise, or_default, read_limit, check_limits, limits_within, limits_of,
  validate_p2p_order_limits,
}

-- What a limit is set to: the default where its text is blank, and else what the text says.
abbrev pub IsLimit : Str → ℕ → ℕ → Type 0
IsLimit s default n = ((str_eq (trim_space s) [] ≡ true) × (n ≡ default)) ⊎ (read_limit s ≡ some n)

IsLimit-default :
    (s default : Str) (d : ℕ) {n : ℕ}
    → read_limit default ≡ some d
    → read_limit (or_default s default) ≡ some n
    → IsLimit s d n
IsLimit-default s default d {n} reads h = elim (Bool-cases (str_eq (trim_space s) [])) [
  | inl blank ↦ inl (blank, ground arith)
  | inr text ↦ inr (ground arith)
]

read_limit-value : (total : ℕ) → read_limit (float_string 2 total) ≡ some total
read_limit-value total =
    ap (read_fixed 2) (trim_space_solid (float_string 2 total) (float_string-IsSolid 2 total))
    ∙ read_fixed-float_string 1 total

read_limit-hundredth : read_limit (bytes "0.01") ≡ some 1
unfolding read_fixed trim_space
read_limit-hundredth = refl

check_limits-ok :
    (total : ℕ) (lo hi : Option ℕ) {m n : ℕ}
    → check_limits total lo hi ≡ ok (m, n)
    → (lo ≡ some m) × (hi ≡ some n) × (0 < m) × (m ≤ n) × (n ≤ total)
unfolding check_limits
check_limits-ok total none hi h = cc
check_limits-ok total (some lo) none h = cc
check_limits-ok total (some lo) (some hi) h = ground arith

limits_of-ok :
    (r : Result ℕ) (min_order max_order : Str) {m n : ℕ}
    → limits_of r min_order max_order ≡ ok (m, n)
    → (v : ℕ) × (r ≡ ok v)
      × IsLimit min_order 1 m
      × IsLimit max_order (round_to_paise v) n
      × (0 < m)
      × (m ≤ n)
      × (n ≤ round_to_paise v)
unfolding limits_of limits_within
limits_of-ok (ok v) min_order max_order h =
    let (lo, hi, positive, ordered, bounded) = check_limits-ok _ _ _ h in
    (
      v,
      refl,
      IsLimit-default min_order (bytes "0.01") 1 read_limit-hundredth lo,
      IsLimit-default max_order _ (round_to_paise v) (read_limit-value (round_to_paise v)) hi,
      positive,
      ordered,
      bounded,
    )
limits_of-ok (err e) min_order max_order h = cc

-- The limits that an ad is given, in hundredths of INR, are positive and in order, and the upper one
-- is at most the ad's value, rounded to two decimals. Each is what its text says, or where that is
-- blank one hundredth and the ad's value.
pub validate_p2p_order_limits-range :
    (amount price : ℕ) (min_order max_order : Str) {m n : ℕ}
    → validate_p2p_order_limits amount price min_order max_order ≡ ok (m, n)
    → IsLimit min_order 1 m
      × IsLimit max_order (round_to_paise (amount * price)) n
      × (0 < m)
      × (m ≤ n)
      × (n ≤ round_to_paise (amount * price))
unfolding validate_p2p_order_limits p2p_fiat_value
validate_p2p_order_limits-range amount price min_order max_order {m} {n} h =
    let (v, is, lo, hi, positive, ordered, bounded) =
      limits_of-ok (p2p_fiat_value amount price) min_order max_order h in
    let v_is : v ≡ amount * price = ground arith in
    (
      lo,
      subst (λ t. IsLimit max_order (round_to_paise t) n) v_is hi,
      positive,
      ordered,
      ground (arith, ap round_to_paise v_is),
    )
