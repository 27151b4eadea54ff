-- ===== src/Chain/Listener/Laws.antt =====
-- The listener goes over every block once, in ranges that the node serves.
use dex_backend.Base.{
  ℕ, zero, suc, ◌+◌, ◌≤◌, ◌<◌, ◌≡◌, ◌≢◌, refl, ap, ◌∙◌, sym, true, false, Option, none, some, List,
  [], ◌∷◌, ◌++◌, leb, ltb, arith, Bool-cases, Option-cases, inl, inr,
}
use native.Mathlib.Decide.{dec_lt}
use dex_backend.Result.{Result-cases}
use dex_backend.Text.Bytes.{Str}
use dex_backend.Text.Decimal.{string}
use dex_backend.Asset.{usdc, biusd, name}
use dex_backend.Schema.{LedgerDb}
use dex_backend.Ledger.Deposits.{insert_deposit}
use dex_backend.Chain.Listener.{
  DepositLog, Vault, find_or_create, after_deposit, credit_deposit, unpacked, handle_deposit,
  Replies, PollEnd, done, out_of_fuel, max_block_range, handle_logs, range_end, u64, move_on,
  fetched, poll_from, start_of, poll,
}

-- The last block leaves room for a range below 2 ^ 64.
abbrev pub InRange : ℕ → Type 0
InRange latest = latest + 2000 < 18446744073709551616

range_end_bounds :
    (from latest : ℕ)
    → InRange latest
    → from ≤ latest
    → (from ≤ range_end from latest)
      × (range_end from latest ≤ latest)
      × (range_end from latest < from + max_block_range)
      × (u64 (range_end from latest + 1) ≡ range_end from latest + 1)
unfolding range_end
range_end_bounds from latest room h =
    let to_is : u64 (from + 2000 + 18446744073709551615) ≡ from + 1999 = omega arith in
    rw to_is (elim (Bool-cases (ltb latest (from + 1999))) [
      | inl cut ↦ rw cut (omega arith, omega arith, ground arith, omega arith)
      | inr whole ↦ rw whole (omega arith, ground arith, omega arith, ground arith)
    ])

handle_logs-append :
    (logs more : List DepositLog) (v : Vault)
    → handle_logs (logs ++ more) v ≡ handle_logs more (handle_logs logs v)
unfolding handle_logs
handle_logs-append [] more v = refl
handle_logs-append (log ∷ logs) more v = handle_logs-append logs more _

-- A round that may fail never lacks fuel.
fetched-ends :
    (r : Replies) (o : Option (List DepositLog)) (next : ℕ) (rest : Vault → PollEnd × Vault)
    (v : Vault)
    → ((w : Vault) → (rest w).0 ≢ out_of_fuel)
    → (fetched r o next rest v).0 ≢ out_of_fuel
unfolding fetched move_on
fetched-ends r none next rest v h = λ e. cc
fetched-ends r (some logs) next rest v h = elim (Bool-cases (r.set_cursor next)) [
  | inl written ↦ rw written (h (record (handle_logs logs v) { cursor = some next }))
  | inr unwritten ↦ rw unwritten (λ e. cc)
]

poll_from-ends :
    (fuel : ℕ) (r : Replies) (from latest : ℕ) (v : Vault)
    → InRange latest
    → latest < from + fuel
    → (poll_from fuel r from latest v).0 ≢ out_of_fuel
unfolding poll_from
poll_from-ends zero r from latest v room enough =
    let past : leb from latest ≡ false = ground arith in rw past (λ e. cc)
poll_from-ends (suc fuel) r from latest v room enough = elim (Bool-cases (leb from latest)) [
  | inr past ↦ rw past (λ e. cc)
  | inl more ↦
      let (low, high, _, next_is) = range_end_bounds from latest room (ground arith) in
      let next = u64 (range_end from latest + 1) in
      rw more (
        fetched-ends r (r.filter_logs from (range_end from latest)) next
          (λ w. poll_from fuel r next latest w) v
          λ w. poll_from-ends fuel r next latest w room (omega arith))
]

-- However the node replies and whether or not the cursor is written, a poll ends: where the last
-- block is more than 2000 below 2 ^ 64, the rounds that it is given are enough.
pub poll-ends :
    (start latest : ℕ) (r : Replies) (v : Vault)
    → InRange latest
    → (poll start r (some latest) v).0 ≢ out_of_fuel
unfolding poll
poll-ends start latest r v room =
    poll_from-ends (suc latest) r (start_of start v.cursor) latest v room (omega arith)

abbrev pub at_cursor : ℕ → Vault → Vault
at_cursor n v = record v { cursor = some n }

-- Deposits are handled whatever the cursor says.
credit_deposit-cursor :
    (wallet : Str) (x hash n : ℕ) (p : ℕ × LedgerDb) (v : Vault)
    → credit_deposit wallet x hash p (at_cursor n v)
      ≡ at_cursor n (credit_deposit wallet x hash p v)
unfolding credit_deposit after_deposit
credit_deposit-cursor wallet x hash n (user, db) v =
    elim (Result-cases (insert_deposit user wallet (name usdc) (name biusd) (string x) hash db).0) [
      | inl (u, ended) ↦ ground arith
      | inr (e, ended) ↦ ground arith
    ]

handle_deposit-cursor :
    (log : DepositLog) (n : ℕ) (v : Vault)
    → handle_deposit log (at_cursor n v) ≡ at_cursor n (handle_deposit log v)
unfolding handle_deposit unpacked
handle_deposit-cursor log n v = elim (Option-cases (log.amount)) [
  | inl garbled ↦ rw garbled refl
  | inr (x, amount) ↦ rw amount (
      credit_deposit-cursor log.user_address x log.tx_hash n
        (find_or_create log.user_address v.ledger) v)
]

handle_logs-cursor :
    (logs : List DepositLog) (n : ℕ) (v : Vault)
    → handle_logs logs (at_cursor n v) ≡ at_cursor n (handle_logs logs v)
unfolding handle_logs
handle_logs-cursor [] n v = refl
handle_logs-cursor (log ∷ logs) n v =
    ap (handle_logs logs) (handle_deposit-cursor log n v)
    ∙ handle_logs-cursor logs n (handle_deposit log v)

-- What FilterLogs promises: it serves up to 2048 blocks in a call, and the logs of a range are those of
-- its first part, then those of the rest.
pub record Serves (r : Replies) (logs : ℕ → ℕ → List DepositLog) : Type 0 where
  pub replies :
      (from to : ℕ) → from ≤ to → to < from + 2048 → r.filter_logs from to ≡ some (logs from to)
  pub written : (next : ℕ) → r.set_cursor next ≡ true
  pub parts :
      (from to latest : ℕ)
      → from ≤ to
      → to < latest
      → logs from latest ≡ logs from to ++ logs (to + 1) latest

-- Behind the last block nothing is left to do.
poll_from-past :
    (fuel : ℕ) (r : Replies) (from latest : ℕ) (v : Vault)
    → latest < from
    → poll_from fuel r from latest v ≡ (done, v)
unfolding poll_from
poll_from-past zero r from latest v h =
    let past : leb from latest ≡ false = ground arith in rw past refl
poll_from-past (suc fuel) r from latest v h =
    let past : leb from latest ≡ false = ground arith in rw past refl

module _ (r : Replies) (logs : ℕ → ℕ → List DepositLog) (serves : Serves r logs) where
  -- The first round, which leaves the blocks after `to`.
  rounds :
      (from to latest : ℕ) (v : Vault)
      → from ≤ to
      → to < latest
      → at_cursor
          (latest + 1)
          (handle_logs (logs (to + 1) latest) (at_cursor (to + 1) (handle_logs (logs from to) v)))
        ≡ at_cursor (latest + 1) (handle_logs (logs from latest) v)
  rounds from to latest v h k =
      ap (at_cursor (latest + 1))
        (handle_logs-cursor (logs (to + 1) latest) (to + 1) (handle_logs (logs from to) v))
      ∙ ap (at_cursor (latest + 1)) (
          sym (handle_logs-append (logs from to) (logs (to + 1) latest) v)
          ∙ ap (λ l. handle_logs l v) (sym (serves.parts from to latest h k)))

  -- One round, with the node serving.
  poll_from-round :
      (fuel from latest : ℕ) (v : Vault)
      → InRange latest
      → from ≤ latest
      → poll_from (suc fuel) r from latest v
        ≡ poll_from fuel r (range_end from latest + 1) latest (
            at_cursor
              (range_end from latest + 1)
              (handle_logs (logs from (range_end from latest)) v))
  poll_from-round fuel from latest v room h =
      let (low, high, short, next_is) = range_end_bounds from latest room h in
      let more : leb from latest ≡ true = ground arith in
      (unfold poll_from fetched move_on in
        rw
          (
            more,
            serves.replies from (range_end from latest) low (omega arith),
            next_is,
            serves.written (range_end from latest + 1),
          )
          refl)

  poll_from-scans :
      (fuel from latest : ℕ) (v : Vault)
      → InRange latest
      → from ≤ latest
      → latest < from + fuel
      → poll_from fuel r from latest v
        ≡ (done, at_cursor (latest + 1) (handle_logs (logs from latest) v))
  poll_from-scans zero from latest v room h enough = absurd (omega arith)
  poll_from-scans (suc fuel) from latest v room h enough =
      let (low, high, _, next_is) = range_end_bounds from latest room h in
      let to = range_end from latest in
      let w = at_cursor (to + 1) (handle_logs (logs from to) v) in
      poll_from-round fuel from latest v room h ∙ elim (dec_lt to latest) [
        | yes more ↦
            poll_from-scans fuel (to + 1) latest w room (omega arith) (omega arith)
            ∙ ap (λ (x : Vault). (done, x)) (rounds from to latest v low more)
        | no last ↦
            let to_is : to ≡ latest = omega arith in
            poll_from-past fuel r (to + 1) latest w (omega arith)
            ∙ ap (λ n. (done, at_cursor (n + 1) (handle_logs (logs from n) v))) to_is
      ]

-- Where the node serves every range of up to 2048 blocks, and a range is served as its parts one after
-- the other, and the cursor's row can be written, and the last block is more than 2000 below 2 ^ 64, a
-- poll that starts at or before the last block ends well: the deposits of all the blocks from the
-- start to the last one have been handled once each, in order, and the next poll starts behind the
-- last block.
pub poll-scans :
    (start latest : ℕ) (r : Replies) (logs : ℕ → ℕ → List DepositLog) (v : Vault)
    → Serves r logs
    → InRange latest
    → start_of start v.cursor ≤ latest
    → poll start r (some latest) v
      ≡ (done, at_cursor (latest + 1) (handle_logs (logs (start_of start v.cursor) latest) v))
unfolding poll
poll-scans start latest r logs v serves room h =
    poll_from-scans r logs serves (suc latest) (start_of start v.cursor) latest v room h
      (omega arith)
