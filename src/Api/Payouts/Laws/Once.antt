-- ===== src/Api/Payouts/Laws/Once.antt =====
-- Every call of the treasury, and the requests that a run of them hands to the signer.
use dex_backend.Base.{
  ℕ, suc, ◌≡◌, refl, ◌⊎◌, inl, inr, Bool, true, false, Option, none, some, [], ◌==◌, arith,
}
use dex_backend.Base.Key.{nat_key}
use dex_backend.Result.{Result, ok, err, Result-cases}
use dex_backend.Text.Bytes.{Str, bytes}
use dex_backend.Text.Decimal.{string}
use dex_backend.Table.{insert}
use dex_backend.Table.Laws.{select-insert}
use dex_backend.Schema.{LedgerEntry, LedgerDb}
use dex_backend.Ledger.{validate_positive_amount}
use dex_backend.Ledger.Withdrawals.{
  insert_withdrawal_request, mark_withdrawal_failed, reject_withdrawal_request,
}
use dex_backend.Ledger.Withdrawals.Moves.{fail-Moved, reject-Moved}
use dex_backend.Ledger.Withdrawals.Ids.{
  fail-SameIds, reject-SameIds, insert_withdrawal_request-new, insert_withdrawal_request-refused,
}
use dex_backend.Chain.Signer.{NodeReplies}
use dex_backend.Api.{Claims}
use dex_backend.Api.Payouts.{
  Treasury, Reply, with_ledger, after_request, request_asset, request_amount, withdraw_request,
  after_action, action_of, process_if_signer, approve_or_reject, fail_or_retry, with_id, as_admin,
  admin_approve_withdrawal, admin_recover_withdrawal,
}
use dex_backend.Api.Payouts.Laws.Orderly.{
  times, Handed, IsFresh, IsOrderly, ledger-IsOrderly, process-IsOrderly,
}

Handed-new :
    (id j : ℕ) (e : LedgerEntry) (t : Treasury) (db : LedgerDb)
    → db.next_id ≡ suc t.ledger.next_id
    → db.ledger_entries ≡ insert t.ledger.next_id e t.ledger.ledger_entries
    → Handed j t
    → Handed j (with_ledger db t)
Handed-new id j e t db next rows h =
    let old = h.old in
    let other : (t.ledger.next_id == j) ≡ false = ground arith in
    record {
      once = h.once;
      old = omega (arith);
      entry = h.entry;
      here = rw (rows, select-insert t.ledger.next_id j e t.ledger.ledger_entries, other) (h.here);
      claimed = h.claimed;
    }

new-IsOrderly :
    (e : LedgerEntry) (t : Treasury) (db : LedgerDb)
    → db.next_id ≡ suc t.ledger.next_id
    → db.ledger_entries ≡ insert t.ledger.next_id e t.ledger.ledger_entries
    → IsOrderly t
    → IsOrderly (with_ledger db t)
new-IsOrderly e t db next rows o = record {
  fresh = λ j late.
      rw (rows, select-insert t.ledger.next_id j e t.ledger.ledger_entries)
        (ground (arith, o.fresh j (omega arith)));
  handed = λ j. elim (o.handed j) [
    | inl never ↦ inl never
    | inr h ↦ inr (Handed-new j j e t db next rows h)
  ];
}

after_request-IsOrderly :
    (r : NodeReplies) (p : Result ℕ × LedgerDb) (t : Treasury)
    → IsOrderly (with_ledger p.1 t)
    → IsOrderly (after_request r p t).1
unfolding after_request
after_request-IsOrderly r (ok id, db) t o = process-IsOrderly id r (with_ledger db t) o
after_request-IsOrderly r (err x, db) t o = o

request-IsOrderly :
    (user : ℕ) (wallet token raw : Str) (t : Treasury)
    → IsOrderly t
    → IsOrderly (with_ledger (insert_withdrawal_request user wallet token raw t.ledger).1 t)
request-IsOrderly user wallet token raw t o =
    let p : Result ℕ × LedgerDb = insert_withdrawal_request user wallet token raw t.ledger in
    elim (Result-cases (insert_withdrawal_request user wallet token raw t.ledger).0) [
      | inl (id, done) ↦
          let (e, _, next, rows) =
            insert_withdrawal_request-new user wallet token raw t.ledger (λ i. (done i, p.1)) in
          new-IsOrderly e t (p.1) next rows o
      | inr (e, ended) ↦
          rw (insert_withdrawal_request-refused user wallet token raw t.ledger ended) o
    ]

withdraw-IsOrderly :
    (c : Option Claims) (signer : Bool) (amount asset : Str) (r : NodeReplies) (t : Treasury)
    → IsOrderly t
    → IsOrderly (withdraw_request c signer amount asset r t).1
unfolding withdraw_request
withdraw-IsOrderly none signer amount asset r t o = o
withdraw-IsOrderly (some c) false amount asset r t o = o
withdraw-IsOrderly (some c) true amount asset r t o =
    ground (arith, read c (request_asset asset) (validate_positive_amount amount))
  where
    read : (c : Claims) (asset : Str) (x : Result ℕ) → IsOrderly (request_amount r c asset x t).1
    read c asset (err x) = unfold request_amount in o
    read c asset (ok x) =
        unfold request_amount in
        after_request-IsOrderly r
          (insert_withdrawal_request c.user_id c.wallet_address asset (string x) t.ledger) t
          (request-IsOrderly c.user_id c.wallet_address asset (string x) t o)

after_action-IsOrderly :
    (word : Str) (p : Result (Unit {0}) × LedgerDb) (t : Treasury)
    → IsOrderly (with_ledger p.1 t)
    → IsOrderly (after_action word p t).1
unfolding after_action
after_action-IsOrderly word (ok a, db) t o = o
after_action-IsOrderly word (err x, db) t o = o

if_signer-IsOrderly :
    (signer : Bool) (id : ℕ) (r : NodeReplies) (t : Treasury)
    → IsOrderly t
    → IsOrderly (process_if_signer signer id r t).1
unfolding process_if_signer
if_signer-IsOrderly false id r t o = o
if_signer-IsOrderly true id r t o = process-IsOrderly id r t o

approve-IsOrderly :
    (signer : Bool) (id : ℕ) (action : Str) (r : NodeReplies) (t : Treasury)
    → IsOrderly t
    → IsOrderly (approve_or_reject signer id action r t).1
unfolding approve_or_reject
approve-IsOrderly signer id action r t o =
    let rejected : IsOrderly
        (after_action (bytes "rejected") (reject_withdrawal_request id t.ledger) t).1 =
      after_action-IsOrderly _ (reject_withdrawal_request id t.ledger) t
        (ledger-IsOrderly t _ (reject-Moved id t.ledger) (reject-SameIds id t.ledger) o) in
    ground (arith, if_signer-IsOrderly signer id r t o)

fail-or-retry-IsOrderly :
    (signer : Bool) (id : ℕ) (action : Str) (r : NodeReplies) (t : Treasury)
    → IsOrderly t
    → IsOrderly (fail_or_retry signer id action r t).1
unfolding fail_or_retry
fail-or-retry-IsOrderly signer id action r t o =
    let failed : IsOrderly
        (after_action (bytes "failed") (mark_withdrawal_failed id t.ledger) t).1 =
      after_action-IsOrderly _ (mark_withdrawal_failed id t.ledger) t
        (ledger-IsOrderly t _ (fail-Moved id t.ledger) (fail-SameIds id t.ledger) o) in
    ground (arith, if_signer-IsOrderly signer id r t o)

as_admin-IsOrderly :
    (admins : Str → Bool) (c : Option Claims) (act : Treasury → Reply × Treasury) (t : Treasury)
    → IsOrderly t
    → IsOrderly (act t).1
    → IsOrderly (as_admin admins c act t).1
unfolding as_admin
as_admin-IsOrderly admins none act t o done = o
as_admin-IsOrderly admins (some c) act t o done = ground arith

with_id-IsOrderly :
    (id : Option ℕ) (act : ℕ → Treasury → Reply × Treasury) (t : Treasury)
    → IsOrderly t
    → ((i : ℕ) → IsOrderly (act i t).1)
    → IsOrderly (with_id id act t).1
unfolding with_id
with_id-IsOrderly none act t o done = o
with_id-IsOrderly (some id) act t o done = done id

-- The calls: a user's request, an admin's approval or rejection, an admin's recovery. Who calls,
-- what the request holds and what the node replies is arbitrary.
pub data Call : Treasury → Treasury → Type 0 where
  withdraws :
      (c : Option Claims) (signer : Bool) (amount asset : Str) (r : NodeReplies) (t : Treasury)
      → Call t (withdraw_request c signer amount asset r t).1
  approves :
      (admins : Str → Bool) (c : Option Claims) (signer : Bool) (id : Option ℕ) (action : Str)
      (r : NodeReplies) (t : Treasury)
      → Call t (admin_approve_withdrawal admins c signer id action r t).1
  recovers :
      (admins : Str → Bool) (c : Option Claims) (signer : Bool) (id : Option ℕ) (action : Str)
      (r : NodeReplies) (t : Treasury)
      → Call t (admin_recover_withdrawal admins c signer id action r t).1

pub data Calls (t : Treasury) : Treasury → Type 0 where
  none_yet : Calls t t
  and_then : {u v : Treasury} → Calls t u → Call u v → Calls t v

Call-IsOrderly : {t u : Treasury} → Call t u → IsOrderly t → IsOrderly u
unfolding admin_approve_withdrawal admin_recover_withdrawal
Call-IsOrderly (withdraws c signer amount asset r t) o =
    withdraw-IsOrderly c signer amount asset r t o
Call-IsOrderly (approves admins c signer id action r t) o = as_admin-IsOrderly admins c _ t o (
    with_id-IsOrderly id _ t o
      λ i. approve-IsOrderly signer i (action_of (bytes "approve") action) r t o)
Call-IsOrderly (recovers admins c signer id action r t) o = as_admin-IsOrderly admins c _ t o (
    with_id-IsOrderly id _ t o
      λ i. fail-or-retry-IsOrderly signer i (action_of (bytes "retry") action) r t o)

Calls-IsOrderly : {t u : Treasury} → IsOrderly t → Calls t u → IsOrderly u
Calls-IsOrderly o none_yet = o
Calls-IsOrderly o (and_then calls call) = Call-IsOrderly call (Calls-IsOrderly o calls)

-- From a ledger whose next ids are free and with nothing handed over, whatever calls of the
-- treasury are made and whatever the node replies to each, every request is handed to the signer
-- at most once, and one that was is never pending again.
pub Calls-Handed :
    {t u : Treasury} (id : ℕ)
    → IsFresh t.ledger
    → t.submitted ≡ []
    → Calls t u
    → (times id u.submitted ≡ 0) ⊎ Handed id u
Calls-Handed {t} {u} id fresh nothing calls =
    let start : IsOrderly t = record { fresh = fresh; handed = λ j. inl (rw nothing refl) } in
    (Calls-IsOrderly start calls).handed id
