-- ===== src/Chain/Listener.antt =====
-- `poll` and `handleDeposit` of the deposit listener (internal/chain/listener.go), and FindOrCreate of
-- the users (internal/repo/users.go). The node's replies and whether the cursor's row is written are
-- parameters. Block numbers are uint64.
pub mod Laws
use dex_backend.Base.{
  ℕ, zero, suc, ◌+◌, ◌-◌, ◌%◌, Bool, true, false, Option, none, some, List, [], ◌∷◌, leb, ltb,
  if◌then◌else◌,
}
use dex_backend.Result.{Result, ok, err}
use dex_backend.Text.Bytes.{Str, str_eq, to_lower}
use dex_backend.Text.Decimal.{string}
use dex_backend.Asset.{usdc, biusd, name}
use dex_backend.Table.{Table, insert}
use dex_backend.Base.Key.{nat_key}
use dex_backend.Schema.{User, LedgerDb}
use dex_backend.Ledger.Deposits.{insert_deposit}

unfoldable pub find_by_wallet : Str → Table ℕ User → Option ℕ
find_by_wallet address [] = none
find_by_wallet address ((id, u) ∷ rows) =
    if str_eq u.wallet_address address then some id else find_by_wallet address rows

found_or_new : Str → Option ℕ → LedgerDb → ℕ × LedgerDb
found_or_new address (some id) db = (id, db)
found_or_new address none db =
    let user : User = record { wallet_address = address; p2p_username = none } in
    (db.next_id, record db { users = insert db.next_id user db.users; next_id = suc db.next_id })

unfoldable pub find_or_create : Str → LedgerDb → ℕ × LedgerDb
unfolding found_or_new
find_or_create wallet db =
    found_or_new (to_lower wallet) (find_by_wallet (to_lower wallet) db.users) db

-- A Deposit event: the user's address, the amount, unless its data cannot be unpacked, and the hash of
-- the transaction.
pub record DepositLog : Type 0 where
  pub user_address : Str
  pub amount : Option ℕ
  pub tx_hash : ℕ

-- The ledger, the row of chain_cursor, and the credits that are sent to the engine, the latest first.
pub record Vault : Type 0 where
  pub ledger : LedgerDb
  pub cursor : Option ℕ
  pub notices : List (ℕ × Str × Str)

after_deposit : ℕ → Str → Result (Unit {0}) × LedgerDb → Vault → Vault
after_deposit user amount (err x, db) v = record v { ledger = db }
after_deposit user amount (ok _, db) v = record v {
  ledger = db;
  notices = (user, name biusd, amount) ∷ v.notices;
}

credit_deposit : Str → ℕ → ℕ → ℕ × LedgerDb → Vault → Vault
unfolding after_deposit
credit_deposit wallet x hash (user, db) v =
    after_deposit user (string x)
      (insert_deposit user wallet (name usdc) (name biusd) (string x) hash db) v

unpacked : DepositLog → Option ℕ → Vault → Vault
unfolding credit_deposit
unpacked log none v = v
unpacked log (some x) v =
    credit_deposit log.user_address x log.tx_hash (find_or_create log.user_address v.ledger) v

-- An error is logged by the loop, which goes on: it is dropped here.
unfoldable pub handle_deposit : DepositLog → Vault → Vault
unfolding unpacked
handle_deposit log v = unpacked log log.amount v

unfoldable pub handle_logs : List DepositLog → Vault → Vault
handle_logs [] v = v
handle_logs (log ∷ logs) v = handle_logs logs (handle_deposit log v)

-- Whether FilterLogs replies for a range, with what; and whether the cursor's row is written.
pub record Replies : Type 0 where
  pub filter_logs : ℕ → ℕ → Option (List DepositLog)
  pub set_cursor : ℕ → Bool

pub data PollEnd : Type 0 where
  done failed out_of_fuel : PollEnd

abbrev pub max_block_range : ℕ
max_block_range = 2000

-- uint64 arithmetic.
abbrev pub u64 : ℕ → ℕ
u64 n = n % 18446744073709551616

-- `to`, cut to `latest`.
unfoldable pub range_end : ℕ → ℕ → ℕ
range_end from latest =
    let to = u64 (from + max_block_range + 18446744073709551615) in
    if ltb latest to then latest else to

-- After the cursor was to be written.
move_on : Bool → ℕ → (Vault → PollEnd × Vault) → Vault → PollEnd × Vault
move_on false next rest v = (failed, v)
move_on true next rest v = rest (record v { cursor = some next })

fetched :
    Replies → Option (List DepositLog) → ℕ → (Vault → PollEnd × Vault) → Vault → PollEnd × Vault
unfolding move_on
fetched r none next rest v = (failed, v)
fetched r (some logs) next rest v = move_on (r.set_cursor next) next rest (handle_logs logs v)

-- The loop `for from <= latest`.
unfoldable pub poll_from : ℕ → Replies → ℕ → ℕ → Vault → PollEnd × Vault
unfolding fetched
poll_from zero r from latest v = if leb from latest then (out_of_fuel, v) else (done, v)
poll_from (suc fuel) r from latest v =
    let to = range_end from latest in
    let rest = λ (w : Vault). poll_from fuel r (u64 (to + 1)) latest w in
    if leb from latest then fetched r (r.filter_logs from to) (u64 (to + 1)) rest v else (done, v)

-- `StartBlock` where there is no row.
abbrev pub start_of : ℕ → Option ℕ → ℕ
start_of start none = start
start_of start (some block) = block

-- One round for every block is more than enough.
unfoldable pub poll : ℕ → Replies → Option ℕ → Vault → PollEnd × Vault
poll start r none v = (failed, v)
poll start r (some latest) v = poll_from (suc latest) r (start_of start v.cursor) latest v
