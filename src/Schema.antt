-- ===== src/Schema.antt =====
-- The tables that the ledger keeps (internal/db/db.go) and the rows of internal/models/ledger.go.
-- User ids, row ids and transaction hashes are only compared, so they are numbers; an amount is
-- a NUMERIC(38,0) that is never negative, as every statement that subtracts tests first.
use dex_backend.Base.{ℕ, Option}
use dex_backend.Asset.{Asset, asset_eq}
use dex_backend.Table.{Table}
use dex_backend.Text.Bytes.{Str}
use dex_backend.Base.{if◌then◌else◌}

pub record User : Type 0 where
  pub wallet_address : Str
  pub p2p_username : Option Str

-- A row of user_balances: the eight balance columns and the eight `…_locked` ones.
pub record Balances : Type 0 where
  pub balance : Asset → ℕ
  pub locked : Asset → ℕ

pub data LedgerKind : Type 0 where
  deposit withdrawal_request withdrawal_approved : LedgerKind

pub data LedgerStatus : Type 0 where
  pending processing confirmed failed rejected : LedgerStatus

-- A row of ledger_entries, `models.LedgerEntry`.
pub record LedgerEntry : Type 0 where
  pub user : ℕ
  pub wallet_address : Str
  pub kind : LedgerKind
  pub token : Asset
  pub amount : ℕ
  pub tx_hash : Option ℕ
  pub status : LedgerStatus

pub record LedgerDb : Type 0 where
  pub users : Table ℕ User
  pub user_balances : Table ℕ Balances
  pub ledger_entries : Table ℕ LedgerEntry
  pub next_id : ℕ  -- the id that `gen_random_uuid()` gives the next row

-- `SET column = v` in a row.
abbrev pub set_column : Asset → ℕ → (Asset → ℕ) → Asset → ℕ
set_column a v f b = if asset_eq a b then v else f b

abbrev pub set_balance : Asset → ℕ → Balances → Balances
set_balance a v r = record r { balance = set_column a v r.balance }

abbrev pub set_locked : Asset → ℕ → Balances → Balances
set_locked a v r = record r { locked = set_column a v r.locked }

-- The defaults of the columns.
abbrev pub no_balances : Balances
no_balances = record { balance = λ _. 0; locked = λ _. 0 }
