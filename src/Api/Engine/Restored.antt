-- ===== src/Api/Engine/Restored.antt =====
-- What the backfill sends is the balances, in the engine's units.
use dex_backend.Base.{
  ℕ, suc, ◌+◌, ◌-◌, ◌≡◌, refl, ap, true, false, some, List, [], ◌∷◌, arith, Bool-cases, inl, inr,
}
use dex_backend.Text.Bytes.{Str}
use dex_backend.Text.Decimal.{string}
use dex_backend.Text.Decimal.RoundTrip.{set_string-string}
use dex_backend.Text.Fixed.{read_fixed}
use dex_backend.Text.Fixed.RoundTrip.{read_fixed-trimmed}
use dex_backend.Asset.{Asset}
use dex_backend.Schema.{LedgerDb}
use dex_backend.Ledger.Cells.{balance_of, locked_of}
use dex_backend.Ledger.Reads.{all_nonzero_balances}
use dex_backend.Ledger.Reads.Nonzero.{HasKey, offered, positive, all_nonzero_balances-offered}
use dex_backend.Api.Engine.{
  trimmed, human_units, raw_to_human_units, Takes, backfill_one, backfill_credit, backfill,
  run_backfill,
}

-- The text of a raw amount that is not negative.
pub raw_to_human_units-string : (n : ℕ) → raw_to_human_units (string n) ≡ some (trimmed n)
unfolding raw_to_human_units human_units
raw_to_human_units-string n = ap human_units (set_string-string n)

pub read_fixed-human : (n : ℕ) → read_fixed 6 (trimmed n) ≡ some n
unfolding trimmed
read_fixed-human n = read_fixed-trimmed 6 n

-- A credit for every row that the engine takes, whose text is the row's amount with six decimals.
pub data Restores (takes : Takes) : List (ℕ × Asset × ℕ) → List (ℕ × Asset × Str) → Type 0 where
  done : Restores takes [] []
  taken :
      {user x : ℕ} {a : Asset} {text : Str} {rows : List (ℕ × Asset × ℕ)}
      {credits : List (ℕ × Asset × Str)}
      → takes user a text ≡ true
      → read_fixed 6 text ≡ some x
      → Restores takes rows credits
      → Restores takes ((user, a, x) ∷ rows) ((user, a, text) ∷ credits)
  refused :
      {user x : ℕ} {a : Asset} {text : Str} {rows : List (ℕ × Asset × ℕ)}
      {credits : List (ℕ × Asset × Str)}
      → takes user a text ≡ false
      → read_fixed 6 text ≡ some x
      → Restores takes rows credits
      → Restores takes ((user, a, x) ∷ rows) credits

backfill_sends :
    (takes : Takes) (rows : List (ℕ × Asset × ℕ))
    → Restores takes rows (backfill takes rows).credits
unfolding backfill backfill_one backfill_credit
backfill_sends takes [] = done
backfill_sends takes ((user, a, x) ∷ rows) = elim (Bool-cases (takes user a (trimmed x))) [
  | inl takes_it ↦
      rw (raw_to_human_units-string x, takes_it)
        (taken takes_it (read_fixed-human x) (backfill_sends takes rows))
  | inr refuses ↦
      rw (raw_to_human_units-string x, refuses)
        (refused refuses (read_fixed-human x) (backfill_sends takes rows))
]

abbrev pub count : List (ℕ × Asset × Str) → ℕ
count [] = 0
count (c ∷ rest) = suc (count rest)

backfill_counts :
    (takes : Takes) (rows : List (ℕ × Asset × ℕ))
    → ((backfill takes rows).synced + (backfill takes rows).failed ≡ (backfill takes rows).total)
      × ((backfill takes rows).synced ≡ count (backfill takes rows).credits)
unfolding backfill backfill_one backfill_credit
backfill_counts takes [] = (refl, refl)
backfill_counts takes ((user, a, x) ∷ rows) =
    ground (arith, raw_to_human_units-string x, backfill_counts takes rows)

-- Where a user has one row at most, the rows that the backfill goes through have, for each user and
-- asset, one row if anything is available, of the balance less what is locked, and no row otherwise.
-- Each row in order is credited with a text that reads, with six decimals, as exactly its raw amount,
-- if the engine takes it, and none is refused for its text. The counters add up: `synced` is the number of credits taken, and with `failed` it
-- makes `total`.
pub run_backfill-Restores :
    (takes : Takes) (db : LedgerDb)
    → HasKey db.user_balances
    → ((u : ℕ) (a : Asset)
        → offered u a (all_nonzero_balances db) ≡ positive (balance_of db u a - locked_of db u a))
      × Restores takes (all_nonzero_balances db) (run_backfill takes db).credits
      × ((run_backfill takes db).synced + (run_backfill takes db).failed
          ≡ (run_backfill takes db).total)
      × ((run_backfill takes db).synced ≡ count (run_backfill takes db).credits)
unfolding run_backfill
run_backfill-Restores takes db keyed =
    let (adds, counts) = backfill_counts takes (all_nonzero_balances db) in
    (
      λ u a. all_nonzero_balances-offered u a db keyed,
      backfill_sends takes (all_nonzero_balances db),
      adds,
      counts,
    )
