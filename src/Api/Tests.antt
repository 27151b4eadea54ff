-- ===== src/Api/Tests.antt =====
-- Two users: one has a processing withdrawal and swaps, the other has BIUSD locked for orders.
use dex_backend.Base.{
  ℕ, ◌+◌, ◌-◌, ◌*◌, ◌^◌, ◌<◌, ◌≡◌, ◌⊎◌, refl, Bool, true, Option, none, some, [], ◌∷◌, arith,
}
use dex_backend.Base.Key.{nat_key}
use dex_backend.Result.{ok}
use dex_backend.Text.Bytes.{Str, bytes, trim_space}
use dex_backend.Text.Decimal.{set_string, string, pos}
use dex_backend.Text.Fixed.{read_fixed}
use dex_backend.Asset.{Asset, asset_eq, asset_columns, normalize_asset, usdc, biusd}
use dex_backend.Table.{select, insert, update}
use dex_backend.Schema.{
  User, Balances, LedgerKind, processing, confirmed, LedgerEntry, LedgerDb, set_balance, set_locked,
  no_balances,
}
use dex_backend.Tx.{transact, ◌>>=◌}
use dex_backend.Ledger.{
  validate_positive_amount, lock_balance_tx, lock_balances_tx, credit_balance_tx, debit_balance_tx,
  update_balances,
}
use dex_backend.Ledger.Cells.{balance_of, locked_of}
use dex_backend.Ledger.Reads.{all_nonzero_balances}
use dex_backend.Ledger.Reads.Nonzero.{HasKey, offered, positive}
use dex_backend.Ledger.Transfers.{swap_balance}
use dex_backend.Chain.Signer.{NodeReplies}
use dex_backend.Api.{Claims}
use dex_backend.Api.Payouts.{
  Treasury, withdraw_request, admin_approve_withdrawal, admin_recover_withdrawal,
}
use dex_backend.Api.Payouts.Laws.Orderly.{times, Handed, IsFresh}
use dex_backend.Api.Payouts.Laws.Once.{Calls, none_yet, and_then, withdraws, Calls-Handed}
use dex_backend.Api.Payouts.Laws.Settled.{Refuses, settled_stays}
use dex_backend.Api.Swaps.{
  SwapReply, swap_destinations, swap_fee_rate, fee_amount_of, swap_amount, swap_assets, swap,
}
use dex_backend.Api.Swaps.Laws.{Charges, swap-Charges}
use dex_backend.Api.Engine.{
  Takes, EngineCall, split_symbol, leg, run_backfill, reconcile_order_balance,
}
use dex_backend.Api.Engine.Restored.{Restores, count, run_backfill-Restores}
use dex_backend.Api.Engine.Squared.{Squares, reconcile_order_balance-Squares}

abbrev user : User
user = record { wallet_address = bytes "0xcd"; p2p_username = none }

abbrev ann : Balances
ann = set_balance usdc 30 (set_balance biusd 1000 no_balances)

abbrev bob : Balances
bob = set_locked biusd 500 (set_balance biusd 900 no_balances)

abbrev request : LedgerEntry
request = record {
  user = 1;
  wallet_address = bytes "0xcd";
  kind = LedgerKind.withdrawal_request;
  token = usdc;
  amount = 25;
  tx_hash = none;
  status = processing;
}

abbrev db : LedgerDb
db = record {
  users = (1, user) ∷ (2, user) ∷ [];
  user_balances = (1, ann) ∷ (2, bob) ∷ [];
  ledger_entries = (1, request) ∷ [];
  next_id = 2;
}

abbrev claims : Claims
claims = record { user_id = 1; wallet_address = bytes "0xCD" }

abbrev node : NodeReplies
node = record {
  nonce = some 4;
  gas_price = some 25;
  gas_limit = some 21000;
  signed = some 99;
  sent = true;
  receipt = some true;
}

abbrev treasury : Treasury
treasury = record { ledger = db; submitted = [] }

db-IsFresh : IsFresh db
unfolding select
db-IsFresh j h = ground arith

-- The user's own request, then once more while nothing is left to withdraw.
abbrev once : Treasury
once = (withdraw_request (some claims) true (bytes "5") [] node treasury).1

abbrev twice : Treasury
twice = (withdraw_request (some claims) true (bytes "5") [] node once).1

two-Calls : Calls treasury twice
two-Calls =
    and_then (and_then none_yet (withdraws (some claims) true (bytes "5") [] node treasury))
      (withdraws (some claims) true (bytes "5") [] node once)

Calls-Handed_example : (times 2 twice.submitted ≡ 0) ⊎ Handed 2 twice
Calls-Handed_example = Calls-Handed 2 db-IsFresh refl two-Calls

abbrev everyone : Str → Bool
everyone _ = true

-- The request has been confirmed.
abbrev settled : Treasury
settled = record {
  ledger = record db { ledger_entries = (1, record request { status = confirmed }) ∷ [] };
  submitted = 1 ∷ [];
}

settled_found :
    select 1 settled.ledger.ledger_entries ≡ some (record request { status = confirmed })
unfolding select
settled_found = refl

settled_stays_example :
    Refuses
      (admin_approve_withdrawal everyone (some claims) true (some 1) (bytes "retry") node settled)
      settled
    × ((admin_recover_withdrawal everyone
          (some claims)
          true
          (some 1)
          (bytes "retry")
          node
          settled).1
        ≡ settled)
settled_stays_example =
    settled_stays everyone (some claims) true 1 (record request { status = confirmed })
      (bytes "retry") node settled settled_found refl refl

abbrev swapped : SwapReply
swapped = record { amount = 250; credited_amount = 248; fee_amount = some 2 }

abbrev after_swap : LedgerDb
after_swap = (swap (some claims) (bytes "250") (bytes "biusd") (bytes "usdc ") db).1

swap_run :
    swap (some claims) (bytes "250") (bytes "biusd") (bytes "usdc ") db ≡ (ok swapped, after_swap)
unfolding swap swap_assets swap_amount swap_destinations swap_fee_rate fee_amount_of swap_balance
    credit_balance_tx debit_balance_tx transact ◌>>=◌ select update insert update_balances
    lock_balance_tx lock_balances_tx normalize_asset asset_columns asset_eq trim_space
    validate_positive_amount set_string string
swap_run = refl

swap-Charges_example :
    (set_string (bytes "250") ≡ some (pos 250)) × (0 < 250) × Charges 1 250 248 db after_swap
swap-Charges_example = swap-Charges claims (bytes "250") (bytes "biusd") (bytes "usdc ") db swap_run

abbrev takes_biusd : Takes
takes_biusd _ a _ = asset_eq a biusd

db-HasKey : HasKey db.user_balances
unfolding select
db-HasKey = (refl, (refl, tt))

run_backfill-Restores_example :
    ((u : ℕ) (a : Asset)
      → offered u a (all_nonzero_balances db) ≡ positive (balance_of db u a - locked_of db u a))
    × Restores takes_biusd (all_nonzero_balances db) (run_backfill takes_biusd db).credits
    × ((run_backfill takes_biusd db).synced + (run_backfill takes_biusd db).failed
        ≡ (run_backfill takes_biusd db).total)
    × ((run_backfill takes_biusd db).synced ≡ count (run_backfill takes_biusd db).credits)
run_backfill-Restores_example = run_backfill-Restores takes_biusd db db-HasKey

symbol_read : split_symbol (bytes "BTC-biusd") ≡ some (bytes "BTC", bytes "biusd")
unfolding split_symbol
symbol_read = refl

available_read : read_fixed 18 (bytes "0.0001") ≡ some 100000000000000
unfolding read_fixed
available_read = refl

reconcile_order_balance-Squares_example :
    (call : Option EngineCall) × (reconcile_order_balance 2
        (bytes "BTC-biusd")
        (bytes "SPOT")
        (bytes "BUY")
        (some (bytes "0.0001"))
        db
      ≡ ok call)
    × Squares 2
        (leg (bytes "SPOT") (bytes "BUY") (bytes "BTC") (bytes "biusd"))
        (balance_of db 2 biusd * 10 ^ 12)
        (locked_of db 2 biusd * 10 ^ 12)
        100000000000000
        call
reconcile_order_balance-Squares_example =
    reconcile_order_balance-Squares 2 biusd (bytes "BTC-biusd") (bytes "SPOT") (bytes "BUY")
      (bytes "BTC") (bytes "biusd") (bytes "0.0001") 100000000000000 db symbol_read refl
      available_read
