-- ===== src/Text/Decimal/RoundTrip.antt =====
-- A number that is printed is read back.
use dex_backend.Base.{
  ℕ, zero, suc, ◌+◌, ◌/◌, ◌%◌, ◌<◌, ◌≡◌, refl, true, some, [], ◌∷◌, inl, inr, arith, ltb,
  Bool-cases,
}
use dex_backend.Text.Bytes.{Str}
use dex_backend.Text.Decimal.{pos, is_digit, scan, scan_number, set_string, emit, string}

scan_last : (n : ℕ) (out : Str) → scan ((b'0' + n % 10) ∷ out) (n / 10) ≡ scan out n
unfolding scan
scan_last n out = ground arith

scan_first : (n : ℕ) (out : Str) → n < 10 → scan ((b'0' + n % 10) ∷ out) 0 ≡ scan out n
unfolding scan
scan_first n out h = ground arith

scan-emit : (fuel n : ℕ) (out : Str) → n < fuel → scan (emit fuel n out) 0 ≡ scan out n
unfolding emit
scan-emit zero n out h = absurd (omega arith)
scan-emit (suc fuel) n out h = elim (Bool-cases (ltb n 10)) [
  | inl one ↦ rw one (scan_first n out (ground arith))
  | inr more ↦
      rw (more, scan-emit fuel (n / 10) ((b'0' + n % 10) ∷ out) (ground arith)) (scan_last n out)
]

-- A print begins with a digit, so it has no sign.
abbrev pub StartsWithDigit : Str → Type 0
StartsWithDigit [] = ⊥
StartsWithDigit (c ∷ s) = is_digit c ≡ true

pub emit-StartsWithDigit : (fuel n : ℕ) (out : Str) → n < fuel → StartsWithDigit (emit fuel n out)
unfolding emit
emit-StartsWithDigit zero n out h = absurd (omega arith)
emit-StartsWithDigit (suc fuel) n out h = elim (Bool-cases (ltb n 10)) [
  | inl one ↦ rw one (ground arith)
  | inr more ↦ rw more (emit-StartsWithDigit fuel (n / 10) _ (ground arith))
]

set_string-digits :
    (s : Str) {n : ℕ} → StartsWithDigit s → scan s 0 ≡ some n → set_string s ≡ some (pos n)
unfolding set_string scan_number
set_string-digits [] h e = absurd h
set_string-digits (c ∷ s) {n} h e = ground arith

-- Reading the print of any number gives the number back.
pub set_string-string : (n : ℕ) → set_string (string n) ≡ some (pos n)
unfolding string
set_string-string n =
    set_string-digits _ (emit-StartsWithDigit (n + 1) n [] (omega arith))
      (rw (scan-emit (n + 1) n [] (omega arith)) (unfold scan in refl))
