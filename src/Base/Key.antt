-- ===== src/Base/Key.antt =====
-- Equality tests of keys, as an interface: what a table's index and the program's `==` on
-- identifiers and assets rest on.
use mathlib.Core.Path.{◌≡◌}
use mathlib.Core.Logic.{◌↔◌}
use mathlib.Core.Bool.{Bool, true, ◌&&◌}
use Prim.Native.Nat.{ℕ}
use native.Mathlib.Omega.{arith}
use dex_backend.Base.Tests.{◌==◌, ==_iff}

pub record Key {ℓ} (A : Type ℓ) : Type ℓ where
  pub same : A → A → Bool
  pub same_iff : (a b : A) → (same a b ≡ true) ↔ (a ≡ b)

abbrev pub same {ℓ} : {A : Type ℓ} ⦃k : Key A⦄ → A → A → Bool
same ⦃k⦄ = k.same

instance abbrev pub nat_key : Key ℕ
nat_key = record { same = ◌==◌; same_iff = ==_iff }

module _ {A B : Type 0} ⦃k : Key A⦄ ⦃l : Key B⦄ where
  abbrev pair_same : A × B → A × B → Bool
  pair_same (a, b) (c, d) = k.same a c && l.same b d

  pub pair_same_iff : (p q : A × B) → (pair_same p q ≡ true) ↔ (p ≡ q)
  pair_same_iff (a, b) (c, d) = (
    λ h. ground (arith, k.same_iff a c, l.same_iff b d),
    λ e. ground (arith, k.same_iff a c, l.same_iff b d),
  )

  instance abbrev pub pair_key : Key (A × B)
  pair_key = record { same = pair_same; same_iff = pair_same_iff }
