-- ===== src/Ledger/Amounts.antt =====
-- What the checks of an amount have read.
use dex_backend.Base.{ℕ, zero, suc, ◌<◌, ◌≡◌, refl, Option, none, some, arith}
use dex_backend.Result.{ok}
use dex_backend.Text.Bytes.{Str}
use dex_backend.Text.Decimal.{ℤ, pos, negsuc, set_string}
use dex_backend.Text.Decimal.RoundTrip.{set_string-string}
use dex_backend.Text.Decimal.{string}
use dex_backend.Ledger.{positive, validate_positive_amount}

positive-ok : (o : Option ℤ) {x : ℕ} → positive o ≡ ok x → (o ≡ some (pos x)) × (0 < x)
unfolding positive
positive-ok none h = cc
positive-ok (some (pos zero)) h = cc
positive-ok (some (pos (suc n))) h = ground arith
positive-ok (some (negsuc n)) h = cc

-- An amount that is let through is the number that the text says, and positive.
pub positive_amount :
    (raw : Str) {x : ℕ}
    → validate_positive_amount raw ≡ ok x
    → (set_string raw ≡ some (pos x)) × (0 < x)
unfolding validate_positive_amount
positive_amount raw h = positive-ok (set_string raw) h

-- A positive number that is printed is let through.
pub amount_of_string : (n : ℕ) → 0 < n → validate_positive_amount (string n) ≡ ok n
unfolding validate_positive_amount positive
amount_of_string zero h = absurd (omega arith)
amount_of_string (suc n) h = rw (set_string-string (suc n)) refl
