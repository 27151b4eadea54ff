-- ===== src/Ledger/Reads/Nonzero.antt =====
-- AllNonzeroBalances reports each available balance once.
use dex_backend.Base.{
  ℕ, zero, suc, ◌-◌, ◌<◌, ◌≡◌, ◌∙◌, refl, ap, false, ◌&&◌, Option, none, some, List, [], ◌∷◌, ◌++◌,
  ◌==◌, ==_iff, ltb, arith, Bool-cases, Option-cases, inl, inr, if◌then◌else◌,
}
use mathlib.Core.Path.{subst}
use mathlib.Core.List.{append-nil}
use dex_backend.Base.Key.{nat_key}
use dex_backend.Asset.{Asset, btc, usdc, usdt, bi, biusd, eth, sol, bnb, asset_eq}
use dex_backend.Asset.Laws.{asset_eq_iff}
use dex_backend.Table.{Table, select}
use dex_backend.Schema.{Balances, LedgerDb}
use dex_backend.Ledger.Cells.{balance_of, locked_of}
use dex_backend.Ledger.Reads.{nonzero_of, all_nonzero_balances}

-- The amounts in the rows of one user and asset.
unfoldable pub offered : ℕ → Asset → List (ℕ × Asset × ℕ) → List ℕ
offered u a [] = []
offered u a ((v, c, x) ∷ rows) =
    if v == u && asset_eq c a then x ∷ offered u a rows else offered u a rows

-- A user has one row at most: `user_id` is the primary key.
abbrev pub HasKey : Table ℕ Balances → Type 0
HasKey [] = Unit {0}
HasKey ((u, r) ∷ rows) = (select u rows ≡ none) × HasKey rows

-- What is available of one balance, if it is something.
abbrev pub positive : ℕ → List ℕ
positive zero = []
positive (suc n) = suc n ∷ []

abbrev left_in : Asset → Option Balances → ℕ
left_in a none = 0
left_in a (some r) = r.balance a - r.locked a

positive_lem : (n : ℕ) → 0 < n → positive n ≡ n ∷ []
positive_lem zero h = absurd (omega arith)
positive_lem (suc n) h = refl

offered-append :
    (u : ℕ) (a : Asset) (l m : List (ℕ × Asset × ℕ))
    → offered u a (l ++ m) ≡ offered u a l ++ offered u a m
unfolding offered
offered-append u a [] m = refl
offered-append u a ((v, c, x) ∷ l) m = elim (Bool-cases (v == u && asset_eq c a)) [
  | inl here ↦ rw here (ap (λ r. x ∷ r) (offered-append u a l m))
  | inr there ↦ rw there (offered-append u a l m)
]

-- An arm of the UNION has no row of another asset,
arm_other :
    (u : ℕ) (a b : Asset) (rows : Table ℕ Balances)
    → asset_eq b a ≡ false
    → offered u a (nonzero_of b rows) ≡ []
unfolding offered nonzero_of
arm_other u a b [] other = refl
arm_other u a b ((v, r) ∷ rows) other = elim (Bool-cases (ltb (r.locked b) (r.balance b))) [
  | inl some_left ↦ ground (arith, arm_other u a b rows other)
  | inr none_left ↦ ground (arith, arm_other u a b rows other)
]

-- none of a user without a row,
arm_absent :
    (u : ℕ) (a : Asset) (rows : Table ℕ Balances)
    → select u rows ≡ none
    → offered u a (nonzero_of a rows) ≡ []
unfolding offered nonzero_of select
arm_absent u a [] absent = refl
arm_absent u a ((v, r) ∷ rows) absent = elim (Bool-cases (ltb (r.locked a) (r.balance a))) [
  | inl some_left ↦ ground (arith, arm_absent u a rows)
  | inr none_left ↦ ground (arith, arm_absent u a rows)
]

-- and one of a user with a row that has something left.
arm_own :
    (u : ℕ) (a : Asset) (rows : Table ℕ Balances)
    → HasKey rows
    → offered u a (nonzero_of a rows) ≡ positive (left_in a (select u rows))
unfolding offered nonzero_of select
arm_own u a [] keyed = refl
arm_own u a ((v, r) ∷ rows) (alone, keyed) = elim (Bool-cases (v == u)) [
  | inl own ↦
      let v_is : v ≡ u = ground (arith, ==_iff v u) in
      let absent = arm_absent u a rows (subst (λ w. select w rows ≡ none) v_is alone) in
      elim (Bool-cases (ltb (r.locked a) (r.balance a))) [
        | inl some_left ↦
            rw (own, some_left, absent)
              (ground
                (arith, own, asset_eq_iff a a, absent, positive_lem (r.balance a - r.locked a)))
        | inr none_left ↦
            let nothing : r.balance a - r.locked a ≡ 0 = ground arith in
            rw (own, none_left, nothing) absent
      ]
  | inr other ↦ elim (Bool-cases (ltb (r.locked a) (r.balance a))) [
    | inl some_left ↦ rw (other, some_left) (ground (arith, other, arm_own u a rows keyed))
    | inr none_left ↦ rw (other, none_left) (arm_own u a rows keyed)
  ]
]

available :
    (u : ℕ) (a : Asset) (db : LedgerDb)
    → left_in a (select u db.user_balances) ≡ balance_of db u a - locked_of db u a
unfolding balance_of locked_of
available u a db = elim (Option-cases (select u db.user_balances)) [
  | inl absent ↦ ground arith
  | inr (r, present) ↦ ground arith
]

arm :
    (u : ℕ) (a b : Asset) (db : LedgerDb)
    → HasKey db.user_balances
    → offered u a (nonzero_of b db.user_balances)
      ≡ (if asset_eq b a then positive (balance_of db u a - locked_of db u a) else [])
arm u a b db keyed = elim (Bool-cases (asset_eq b a)) [
  | inl same ↦
      let b_is : b ≡ a = (asset_eq_iff b a).0 same in
      rw (same, b_is) (arm_own u a db.user_balances keyed ∙ ap positive (available u a db))
  | inr other ↦ rw other (arm_other u a b db.user_balances other)
]

-- Each asset has one arm.
one_arm :
    (a : Asset) (l : List ℕ)
    → (if asset_eq usdc a then l else [])
        ++ ((if asset_eq btc a then l else [])
            ++ ((if asset_eq eth a then l else [])
                ++ ((if asset_eq sol a then l else [])
                    ++ ((if asset_eq bnb a then l else [])
                        ++ ((if asset_eq usdt a then l else [])
                            ++ ((if asset_eq biusd a then l else [])
                                ++ (if asset_eq bi a then l else [])))))))
      ≡ l
unfolding asset_eq
one_arm btc l = append-nil l
one_arm usdc l = append-nil l
one_arm usdt l = append-nil l
one_arm bi l = refl
one_arm biusd l = append-nil l
one_arm eth l = append-nil l
one_arm sol l = append-nil l
one_arm bnb l = append-nil l

-- The rows of a user and an asset are one, of what is not locked, if that is something.
pub all_nonzero_balances-offered :
    (u : ℕ) (a : Asset) (db : LedgerDb)
    → HasKey db.user_balances
    → offered u a (all_nonzero_balances db) ≡ positive (balance_of db u a - locked_of db u a)
unfolding all_nonzero_balances
all_nonzero_balances-offered u a db keyed = simp offered-append (
    rw
      (
        arm u a usdc db keyed,
        arm u a btc db keyed,
        arm u a eth db keyed,
        arm u a sol db keyed,
        arm u a bnb db keyed,
        arm u a usdt db keyed,
        arm u a biusd db keyed,
        arm u a bi db keyed,
      )
      (one_arm a (positive (balance_of db u a - locked_of db u a))))
