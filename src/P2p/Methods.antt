-- ===== src/P2p/Methods.antt =====
-- `validP2PPaymentMethods` (internal/repo/p2p.go).
use dex_backend.Base.{
  ℕ, zero, suc, ◌≡◌, refl, sym, ap, ◌∙◌, ◌↔◌, Bool, true, Option, none, some, ◌==◌, arith,
  if◌then◌else◌,
}
use dex_backend.Base.Key.{Key}
use dex_backend.Text.Bytes.{Str, bytes, str_eq}
use dex_backend.P2p.Schema.{Method, upi, bank_transfer, mpesn, neft, imps}

abbrev pub method_name : Method → Str
method_name upi = bytes "UPI"
method_name bank_transfer = bytes "Bank Transfer"
method_name mpesn = bytes "MPESN"
method_name neft = bytes "NEFT"
method_name imps = bytes "IMPS"

-- `validP2PPaymentMethods[s]`
unfoldable pub method_of : Str → Option Method
method_of s =
    if str_eq s (method_name upi)
    then some upi
    else if str_eq s (method_name bank_transfer)
    then some bank_transfer
    else if str_eq s (method_name mpesn)
    then some mpesn
    else if str_eq s (method_name neft)
    then some neft
    else if str_eq s (method_name imps)
    then some imps
    else none

abbrev number : Method → ℕ
number upi = 0
number bank_transfer = 1
number mpesn = 2
number neft = 3
number imps = 4

unfoldable pub method_eq : Method → Method → Bool
method_eq a b = number a == number b

abbrev method_at : ℕ → Method
method_at zero = upi
method_at (suc zero) = bank_transfer
method_at (suc (suc zero)) = mpesn
method_at (suc (suc (suc zero))) = neft
method_at (suc (suc (suc (suc n)))) = imps

method_at-number : (m : Method) → method_at (number m) ≡ m
method_at-number = elim [
  | upi ↦ refl
  | bank_transfer ↦ refl
  | mpesn ↦ refl
  | neft ↦ refl
  | imps ↦ refl
]

pub method_eq_iff : (a b : Method) → (method_eq a b ≡ true) ↔ (a ≡ b)
unfolding method_eq
method_eq_iff a b = (
  λ h.
      let numbers : number a ≡ number b = ground arith in
      sym (method_at-number a) ∙ ap method_at numbers ∙ method_at-number b,
  λ e. rw e (ground arith),
)

instance abbrev pub method_key : Key Method
method_key = record { same = method_eq; same_iff = method_eq_iff }

pub method_of-name : (m : Method) → method_of (method_name m) ≡ some m
unfolding method_of
method_of-name = elim [
  | upi ↦ refl
  | bank_transfer ↦ refl
  | mpesn ↦ refl
  | neft ↦ refl
  | imps ↦ refl
]
