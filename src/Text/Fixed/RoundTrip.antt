-- ===== src/Text/Fixed/RoundTrip.antt =====
-- A decimal that is printed is read back, also with the trailing zeros cut off.
use dex_backend.Base.{
  ℕ, zero, suc, ◌+◌, ◌-◌, ◌*◌, ◌/◌, ◌%◌, ◌^◌, ◌<◌, ◌≤◌, ◌≡◌, refl, sym, ap, ◌∙◌, true, some, [],
  ◌∷◌, ◌++◌, ◌==◌, inl, inr, arith, ltb, Bool-cases, length,
}
use mathlib.Core.Path.{subst}
use mathlib.Core.List.{append-nil}
use native.Mathlib.Nat.{pow-suc, mod_def, mul-div-le, div-div-eq-div-mul, div-add-mod'}
use dex_backend.Text.Bytes.{Str}
use dex_backend.Text.Laws.{IsSolid, IsSolid-append}
use dex_backend.Text.Decimal.{is_digit, emit, string}
use dex_backend.Text.Decimal.RoundTrip.{StartsWithDigit, emit-StartsWithDigit}
use dex_backend.Text.Fixed.{
  last_digits, float_string, trim_cons, trim_right, read_fraction, read_point, read_whole,
  read_fixed,
}

-- The number before the point.
read_whole-emit :
    (k fuel n : ℕ) (out : Str) → n < fuel → read_whole k 0 (emit fuel n out) ≡ read_whole k n out
unfolding emit read_whole
read_whole-emit k zero n out h = absurd (omega arith)
read_whole-emit k (suc fuel) n out h = elim (Bool-cases (ltb n 10)) [
  | inl one ↦ rw one (ground arith)
  | inr more ↦
      rw (more, read_whole-emit k fuel (n / 10) ((b'0' + n % 10) ∷ out) (ground arith))
        (ground arith)
]

emit-append : (fuel n : ℕ) (out rest : Str) → emit fuel n out ++ rest ≡ emit fuel n (out ++ rest)
unfolding emit
emit-append zero n out rest = refl
emit-append (suc fuel) n out rest = elim (Bool-cases (ltb n 10)) [
  | inl one ↦ rw one refl
  | inr more ↦ rw more (emit-append fuel (n / 10) ((b'0' + n % 10) ∷ out) rest)
]

abbrev AllDigits : Str → Type 0
AllDigits [] = Unit {0}
AllDigits (c ∷ s) = (is_digit c ≡ true) × AllDigits s

last_digits-AllDigits : (k n : ℕ) (out : Str) → AllDigits out → AllDigits (last_digits k n out)
unfolding last_digits
last_digits-AllDigits zero n out h = h
last_digits-AllDigits (suc k) n out h =
    last_digits-AllDigits k (n / 10) ((b'0' + n % 10) ∷ out) (ground arith, h)

length-last_digits : (k n : ℕ) (out : Str) → length (last_digits k n out) ≡ k + length out
unfolding last_digits
length-last_digits zero n out = omega arith
length-last_digits (suc k) n out =
    omega (arith, length-last_digits k (n / 10) ((b'0' + n % 10) ∷ out))

-- The value of digits behind `n`.
abbrev value : ℕ → Str → ℕ
value n [] = n
value n (c ∷ s) = value (n * 10 + (c - b'0')) s

read_fraction-digits :
    (k n : ℕ) (s : Str) → AllDigits s → length s ≡ k → read_fraction k n s ≡ some (value n s)
unfolding read_fraction
read_fraction-digits zero n [] h e = ground arith
read_fraction-digits (suc k) n [] h e = absurd (omega arith)
read_fraction-digits zero n (c ∷ s) h e = absurd (omega arith)
read_fraction-digits (suc k) n (c ∷ s) (d, h) e =
    rw d (read_fraction-digits k (n * 10 + (c - b'0')) s h (omega arith))

-- The last digit of a remainder.
mod-digit : (n p : ℕ) → n % (p * 10) ≡ n / 10 % p * 10 + n % 10
mod-digit n p =
    let t : ℕ = p * (n / 10 / p) in
    let swap : p * 10 * (n / (p * 10)) ≡ t * 10 =
      let quotient : n / (p * 10) ≡ n / 10 / p =
        ap (λ (m : ℕ). n / m) {x = p * 10} {y = 10 * p} (omega arith)
        ∙ sym (div-div-eq-div-mul n 10 p) in
      rw quotient (grind arith) in
    omega (arith, mod_def n (p * 10), mod_def (n / 10) p, mul-div-le (n / 10) p, swap)

value-last_digits :
    (k n m : ℕ) (out : Str) → value m (last_digits k n out) ≡ value (m * 10 ^ k + n % 10 ^ k) out
unfolding last_digits
value-last_digits zero n m out = ap (λ (t : ℕ). value t out) {x = m} (omega arith)
value-last_digits (suc k) n m out =
    let step : (m * 10 ^ k + n / 10 % 10 ^ k) * 10 + (b'0' + n % 10 - b'0')
        ≡ m * 10 ^ suc k + n % 10 ^ suc k =
      rw (pow-suc 10 k) (grind (arith, mod-digit n (10 ^ k))) in
    value-last_digits k (n / 10) m ((b'0' + n % 10) ∷ out) ∙ ap (λ (t : ℕ). value t out) step

trim_cons-read :
    (k n c : ℕ) (r : Str)
    → is_digit c ≡ true
    → read_fraction (suc k) n (trim_cons b'0' c r) ≡ read_fraction k (n * 10 + (c - b'0')) r
unfolding read_fraction
trim_cons-read k n c [] d = elim (Bool-cases (c == b'0')) [
  | inl is ↦
      let same_value : n * 10 ^ suc k ≡ (n * 10 + (c - b'0')) * 10 ^ k =
        rw (pow-suc 10 k) (grind arith) in
      rw is (ap some same_value)
  | inr other ↦ rw other (rw d refl)
]
trim_cons-read k n c (e ∷ r) d = rw d refl

-- Cutting the trailing zeros of a fraction does not change what is read.
read_fraction-trim :
    (k n : ℕ) (s : Str)
    → AllDigits s
    → length s ≤ k
    → read_fraction k n (trim_right b'0' s) ≡ read_fraction k n s
unfolding read_fraction trim_right
read_fraction-trim k n [] h e = refl
read_fraction-trim zero n (c ∷ s) h e = absurd (omega arith)
read_fraction-trim (suc k) n (c ∷ s) (d, h) e = rw d (
    trim_cons-read k n c (trim_right b'0' s) d
    ∙ read_fraction-trim k (n * 10 + (c - b'0')) s h (omega arith))

trim_cons-append :
    (cut c : ℕ) (w : Str) (d : ℕ) (t : Str) → trim_cons cut c (w ++ d ∷ t) ≡ c ∷ (w ++ d ∷ t)
trim_cons-append cut c [] d t = refl
trim_cons-append cut c (e ∷ w) d t = refl

-- What stands before a text that is not cut away whole stays.
trim_right-append :
    (cut : ℕ) (w r : Str) (d : ℕ) (t : Str)
    → trim_right cut r ≡ d ∷ t
    → trim_right cut (w ++ r) ≡ w ++ d ∷ t
unfolding trim_right
trim_right-append cut [] r d t h = h
trim_right-append cut (c ∷ w) r d t h =
    rw (trim_right-append cut w r d t h) (trim_cons-append cut c w d t)

trim_right-AllDigits : (cut : ℕ) (s : Str) → AllDigits s → AllDigits (trim_right cut s)
unfolding trim_right
trim_right-AllDigits cut [] h = h
trim_right-AllDigits cut (c ∷ s) (d, h) =
    trim_cons-AllDigits cut c (trim_right cut s) d (trim_right-AllDigits cut s h)
  where
    trim_cons-AllDigits :
        (cut c : ℕ) (r : Str) → is_digit c ≡ true → AllDigits r → AllDigits (trim_cons cut c r)
    trim_cons-AllDigits cut c [] d h = elim (Bool-cases (c == cut)) [
      | inl is ↦ rw is tt
      | inr other ↦ rw other (d, tt)
    ]
    trim_cons-AllDigits cut c (e ∷ r) d h = (d, h)

-- Digits are no points.
trim_point-digits :
    (w r : Str) → AllDigits w → trim_right b'.' r ≡ [] → trim_right b'.' (w ++ r) ≡ w
unfolding trim_right
trim_point-digits [] r h e = e
trim_point-digits (c ∷ w) r (d, h) e = rw (trim_point-digits w r h e) (last c w d)
  where
    last : (c : ℕ) (w : Str) → is_digit c ≡ true → trim_cons b'.' c w ≡ c ∷ w
    last c [] d = ground arith
    last c (e ∷ w) d = refl

emit-AllDigits : (fuel n : ℕ) (out : Str) → AllDigits out → AllDigits (emit fuel n out)
unfolding emit
emit-AllDigits zero n out h = h
emit-AllDigits (suc fuel) n out h = elim (Bool-cases (ltb n 10)) [
  | inl one ↦ rw one (ground arith, h)
  | inr more ↦ rw more (emit-AllDigits fuel (n / 10) ((b'0' + n % 10) ∷ out) (ground arith, h))
]

read_fixed-digit : (k : ℕ) (s : Str) → StartsWithDigit s → read_fixed k s ≡ read_whole k 0 s
unfolding read_fixed
read_fixed-digit k [] h = absurd h
read_fixed-digit k (c ∷ s) h = rw h refl

-- A number in front of a rest is read, and the rest from there.
read_fixed-string : (k n : ℕ) (rest : Str) → read_fixed k (string n ++ rest) ≡ read_whole k n rest
unfolding string
read_fixed-string k n rest = rw (emit-append (n + 1) n [] rest) (
    read_fixed-digit k (emit (n + 1) n rest) (emit-StartsWithDigit (n + 1) n rest (omega arith))
    ∙ read_whole-emit k (n + 1) n rest (omega arith))

-- A decimal is the digits before the point and those behind it.
read_digits : (k n : ℕ) → read_fraction k (n / 10 ^ k) (last_digits k n []) ≡ some n
read_digits k n =
    read_fraction-digits k (n / 10 ^ k) (last_digits k n []) (last_digits-AllDigits k n [] tt)
      (omega (arith, length-last_digits k n []))
    ∙ ap some (value-last_digits k n (n / 10 ^ k) [] ∙ div-add-mod' n (10 ^ k))

read_point-cons :
    (k n : ℕ) (s : Str) → 0 < length s → read_whole k n (b'.' ∷ s) ≡ read_fraction k n s
unfolding read_whole read_point
read_point-cons k n [] h = absurd (omega arith)
read_point-cons k n (c ∷ s) h = refl

AllDigits-IsSolid : (s : Str) → AllDigits s → IsSolid s
AllDigits-IsSolid [] h = h
AllDigits-IsSolid (c ∷ s) (d, h) = (ground arith, AllDigits-IsSolid s h)

pub float_string-IsSolid : (k n : ℕ) → IsSolid (float_string k n)
unfolding float_string string
float_string-IsSolid k n =
    IsSolid-append (string (n / 10 ^ k)) (b'.' ∷ last_digits k n [])
      (AllDigits-IsSolid _ (emit-AllDigits (n / 10 ^ k + 1) (n / 10 ^ k) [] tt))
      (refl, AllDigits-IsSolid _ (last_digits-AllDigits k n [] tt))

-- A decimal of one place or more is read back from its print.
pub read_fixed-float_string : (k n : ℕ) → read_fixed (suc k) (float_string (suc k) n) ≡ some n
unfolding float_string
read_fixed-float_string k n =
    read_fixed-string (suc k) (n / 10 ^ suc k) (b'.' ∷ last_digits (suc k) n [])
    ∙ read_point-cons (suc k) (n / 10 ^ suc k) (last_digits (suc k) n [])
        (omega (arith, length-last_digits (suc k) n []))
    ∙ read_digits (suc k) n

digits_kept : (s : Str) → AllDigits s → trim_right b'.' s ≡ s
unfolding trim_right
digits_kept s h = subst (λ t. trim_right b'.' t ≡ s) (append-nil s) (trim_point-digits s [] h refl)

string-AllDigits : (n : ℕ) → AllDigits (string n)
unfolding string
string-AllDigits n = emit-AllDigits (n + 1) n [] tt

trimmed_read :
    (k q : ℕ) (g : Str) {n : ℕ}
    → AllDigits g
    → read_fraction k q g ≡ some n
    → read_fixed k (trim_right b'.' (string q ++ b'.' ∷ g)) ≡ some n
unfolding trim_right
trimmed_read k q [] h e =
    ap (read_fixed k) (
      trim_point-digits (string q) (b'.' ∷ []) (string-AllDigits q) refl
      ∙ sym (append-nil (string q)))
    ∙ read_fixed-string k q []
    ∙ unfold read_whole read_fraction in e
trimmed_read k q (c ∷ g) h e =
    let point : trim_right b'.' (b'.' ∷ c ∷ g) ≡ b'.' ∷ c ∷ g =
      ap (trim_cons b'.' b'.') (digits_kept (c ∷ g) h) in
    ap (read_fixed k) (trim_right-append b'.' (string q) (b'.' ∷ c ∷ g) b'.' (c ∷ g) point)
    ∙ read_fixed-string k q (b'.' ∷ c ∷ g)
    ∙ read_point-cons k q (c ∷ g) (omega arith)
    ∙ e

trim_cons-point : (g : Str) → trim_cons b'0' b'.' g ≡ b'.' ∷ g
trim_cons-point [] = refl
trim_cons-point (c ∷ g) = refl

-- A decimal that is printed, with the zeros at its end cut off and then a point at its end, is read
-- back.
pub read_fixed-trimmed :
    (k n : ℕ) → read_fixed k (trim_right b'.' (trim_right b'0' (float_string k n))) ≡ some n
unfolding float_string trim_right
read_fixed-trimmed k n =
    let digits = last_digits-AllDigits k n [] tt in
    let f = trim_right b'0' (last_digits k n []) in
    let kept : trim_right b'0' (string (n / 10 ^ k) ++ b'.' ∷ last_digits k n [])
        ≡ string (n / 10 ^ k) ++ b'.' ∷ f =
      trim_right-append b'0' (string (n / 10 ^ k)) (b'.' ∷ last_digits k n []) b'.' f
        (trim_cons-point f) in
    ap (λ s. read_fixed k (trim_right b'.' s)) kept
    ∙ trimmed_read k (n / 10 ^ k) f (trim_right-AllDigits b'0' (last_digits k n []) digits) (
        read_fraction-trim k (n / 10 ^ k) (last_digits k n []) digits
          (omega (arith, length-last_digits k n []))
        ∙ read_digits k n)
