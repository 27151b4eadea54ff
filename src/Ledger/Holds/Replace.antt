-- ===== src/Ledger/Holds/Replace.antt =====
-- `ReplaceLocksFor`: every target is locked, or nothing is.
use mathlib.Core.Path.{subst}
use dex_backend.Base.{
  ℕ, ◌+◌, ◌≤◌, ◌≡◌, ◌∙◌, refl, sym, List, [], ◌∷◌, leb, ◌==◌, arith, inl, inr, leb→le, ==_iff,
  if◌then◌else◌,
}
use dex_backend.Base.Key.{nat_key}
use dex_backend.Result.{ok}
use dex_backend.Text.Bytes.{Str}
use dex_backend.Asset.{Asset, asset_eq, normalize_asset}
use dex_backend.Asset.Laws.{asset_eq_iff}
use dex_backend.Schema.{LedgerDb, set_locked}
use dex_backend.Tx.Laws.{bind-ok, given-bind, query-bind, check-bind, transact-ok}
use dex_backend.Ledger.{validate_non_negative_amount, pending_withdrawal_hold}
use dex_backend.Ledger.Cells.{
  balance_of, locked_of, total, Keeps, Same, Wrote, lock_balance_tx-Same,
}
use dex_backend.Ledger.Cells.Writes.{OnCell, update_write}
use dex_backend.Ledger.Holds.{Plan, plan_all, read_pending, update_all, replace_locks_for}
use dex_backend.Ledger.Holds.Laws.{hold-Keeps}

-- The plans are the targets, each with its asset and its amount read.
abbrev pub Plans : List (Str × Str) → List Plan → Type 0
Plans [] [] = Unit
Plans ((asset, raw) ∷ targets) ((a, x) ∷ plans) =
    (normalize_asset asset ≡ ok a) × (validate_non_negative_amount raw ≡ ok x) × Plans targets plans
Plans _ _ = ⊥

plan_all-Plans :
    (targets : List (Str × Str)) (db : LedgerDb) {plans : List Plan} {db' : LedgerDb}
    → plan_all targets db ≡ ok (plans, db')
    → Plans targets plans × (db' ≡ db)
unfolding plan_all
plan_all-Plans [] db {plans} {db'} h =
    subst (λ ps. Plans [] ps × (db' ≡ db)) {x = []} {y = plans} (ground arith) (tt, ground arith)
plan_all-Plans ((asset, raw) ∷ targets) db {plans = all} {db'} h =
    let (a, read, h0) = given-bind _ _ db h in
    let (x, amount, h1) = given-bind _ _ db h0 in
    let (plans, d, h2, h3) = bind-ok _ _ db h1 in
    let (rest, e) = plan_all-Plans targets db h2 in
    subst (λ ps. Plans ((asset, raw) ∷ targets) ps × (db' ≡ db)) {x = (a, x) ∷ plans} {y = all}
      (ground arith) ((read, amount, rest), ground arith)

-- What is locked of asset `c` after the plans, where `l` was locked before.
abbrev pub target : List Plan → Asset → ℕ → ℕ
target [] c l = l
target ((a, x) ∷ plans) c l = target plans c (if asset_eq a c then x else l)

-- Each plan fits into the balance beside what is held for withdrawals.
abbrev pub Fits : LedgerDb → ℕ → List Plan → Type 0
Fits db u [] = Unit
Fits db u ((a, x) ∷ plans) =
    (x + pending_withdrawal_hold u a db ≤ balance_of db u a) × Fits db u plans

-- The user's locks are those of the plans, and nothing else has changed.
pub record Replaced (u : ℕ) (plans : List Plan) (db db' : LedgerDb) : Type 0 where
  pub balances : (v : ℕ) (c : Asset) → balance_of db' v c ≡ balance_of db v c
  pub lockeds :
      (v : ℕ) (c : Asset)
      → locked_of db' v c ≡ (if u == v then target plans c (locked_of db v c) else locked_of db v c)
  pub totals : (c : Asset) → total c db' ≡ total c db
  pub keeps : Keeps db db'

read_pending-Keeps :
    (u : ℕ) (plans : List Plan) {db d : LedgerDb}
    → Keeps db d
    → read_pending u plans d ≡ read_pending u plans db
unfolding read_pending
read_pending-Keeps u [] k = refl
read_pending-Keeps u (p ∷ plans) k = cc (hold-Keeps u p.0 k, read_pending-Keeps u plans k)

Fits-Keeps :
    (u : ℕ) (plans : List Plan) {db d : LedgerDb}
    → ((v : ℕ) (c : Asset) → balance_of d v c ≡ balance_of db v c)
    → Keeps db d
    → Fits d u plans
    → Fits db u plans
Fits-Keeps u [] b k h = tt
Fits-Keeps u ((a, x) ∷ plans) b k (h, rest) =
    (ground (arith, b u a, hold-Keeps u a k), Fits-Keeps u plans b k rest)

replace-OnCell :
    (u : ℕ) (a : Asset) (x pending : ℕ)
    → OnCell u a
        (λ r. leb (x + pending) (r.balance a))
        (λ r. set_locked a x r)
        (λ b l. leb (x + pending) b)
        (λ b l. b)
        (λ b l. x)
replace-OnCell u a x pending = record {
  tests = λ r. refl;
  sets_balance = λ r c. ground (arith, asset_eq_iff a c);
  sets_locked = λ r c. refl;
}

balances_kept :
    {u : ℕ} {a : Asset} {l : ℕ} {db d : LedgerDb}
    → Wrote u a (balance_of db u a) l db d
    → (v : ℕ) (c : Asset) → balance_of d v c ≡ balance_of db v c
balances_kept {u} {a} w v c = ground (arith, w.balances v c, ==_iff u v, asset_eq_iff a c)

update_all-Replaced :
    (u : ℕ) (plans : List Plan) (db : LedgerDb) {y : Unit {0}} {db' : LedgerDb}
    → update_all u (read_pending u plans db) db ≡ ok (y, db')
    → Fits db u plans × Replaced u plans db db'
unfolding update_all read_pending
update_all-Replaced u [] db {db' = db'} h = (
  tt,
  subst (Replaced u [] db) {x = db} {y = db'} (ground arith) (record {
    balances = λ v c. refl;
    lockeds = λ v c. ground arith;
    totals = λ c. refl;
    keeps = ground arith;
  }),
)
update_all-Replaced u ((a, x) ∷ plans) db {db' = db'} h =
    let (n, d, h0, k0) = bind-ok _ _ db h in
    let (some_row, k1) = check-bind _ _ _ d k0 in
    elim (update_write u a _ _ _ _ _ db (replace-OnCell u a x (pending_withdrawal_hold u a db))
      h0) [
        | inl (no_row, _) ↦ absurd (ground arith)
        | inr (_, covered, w) ↦
            let unmoved = λ (v : ℕ) (c : Asset). balances_kept w v c in
            let again =
              subst (λ ps. update_all u ps d ≡ ok (tt, db'))
                (sym (read_pending-Keeps u plans w.keeps)) k1 in
            let (fits, rest) = update_all-Replaced u plans d again in
            (
              (leb→le _ _ covered, Fits-Keeps u plans unmoved w.keeps fits),
              record {
                balances = λ v c. rest.balances v c ∙ unmoved v c;
                lockeds = λ v c. ground (arith, rest.lockeds v c, w.lockeds v c);
                totals = λ c. ground (arith, rest.totals c, w.totals c);
                keeps = ground (arith, rest.keeps, w.keeps);
              },
            )
      ]

-- A replacement that succeeds has read every target, and each amount fits into the user's balance
-- beside the pending withdrawals of its asset. The user's locks are then those of the targets (the
-- last one, where an asset is named twice); the locks of other assets and of other users, all
-- balances and the ledger entries are as they were.
pub replace_locks_for_replaces :
    (u : ℕ) (targets : List (Str × Str)) (db : LedgerDb) {db' : LedgerDb}
    → replace_locks_for u targets db ≡ (ok tt, db')
    → (plans : List Plan) × Plans targets plans × Fits db u plans × Replaced u plans db db'
unfolding replace_locks_for
replace_locks_for_replaces u targets db {db'} h =
    let (plans, d0, h0, k0) = bind-ok _ _ db (transact-ok _ db h) in
    let (read, e0) = plan_all-Plans targets db h0 in
    let (_, d, h1, k1) = bind-ok _ _ d0 k0 in
    let same : Same db d = subst (λ t. Same t d) e0 (lock_balance_tx-Same u d0 h1) in
    let (fits, done) = update_all-Replaced u plans d (query-bind _ _ d k1) in
    (
      plans,
      read,
      Fits-Keeps u plans same.balances same.keeps fits,
      record {
        balances = λ v c. done.balances v c ∙ same.balances v c;
        lockeds = λ v c. ground (arith, done.lockeds v c, same.lockeds v c);
        totals = λ c. done.totals c ∙ same.totals c;
        keeps = ground (arith, done.keeps, same.keeps);
      },
    )
