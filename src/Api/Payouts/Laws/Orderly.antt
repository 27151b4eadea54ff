-- ===== src/Api/Payouts/Laws/Orderly.antt =====
-- The requests that the treasury's calls hand to the signer.
use dex_backend.Base.{
  ℕ, ◌+◌, ◌≤◌, ◌<◌, ◌≡◌, refl, sym, ◌⊎◌, inl, inr, true, false, none, some, List, [], ◌∷◌, ◌==◌,
  ==_iff, if◌then◌else◌, arith, Bool-cases,
}
use native.Mathlib.Decide.{dec_lt}
use dex_backend.Base.Key.{nat_key}
use dex_backend.Result.{Result, ok, err}
use dex_backend.Table.{select}
use dex_backend.Schema.{LedgerStatus, processing, LedgerEntry, LedgerDb}
use dex_backend.Ledger.Withdrawals.{
  is_pending, set_status, mark_withdrawal_processing, mark_withdrawal_confirmed,
  mark_withdrawal_failed,
}
use dex_backend.Ledger.Withdrawals.Moves.{Advance, Moved, process-Moved, fail-Moved, confirm-Moved}
use dex_backend.Ledger.Withdrawals.Ids.{
  SameIds, process-SameIds, fail-SameIds, confirm-SameIds, process_claims,
}
use dex_backend.Chain.Signer.{
  NodeReplies, Submission, not_sent, unconfirmed, reverted, mined, submit_tx,
}
use dex_backend.Api.Payouts.{
  Treasury, with_ledger, fail_request, answer_confirmed, after_submission, submit, pay, after_claim,
  process_withdrawal_request,
}

-- How often a request was handed to the signer.
abbrev pub times : ℕ → List ℕ → ℕ
times id [] = 0
times id (i ∷ ids) = (if i == id then 1 else 0) + times id ids

-- The request was handed over once, and it is past pending.
pub record Handed (id : ℕ) (t : Treasury) : Type 0 where
  pub once : times id t.submitted ≡ 1
  pub old : id < t.ledger.next_id
  pub entry : LedgerEntry
  pub here : select id t.ledger.ledger_entries ≡ some entry
  pub claimed : is_pending entry.status ≡ false

-- The id of the next row, and every later one, is free.
abbrev pub IsFresh : LedgerDb → Type 0
IsFresh db = (j : ℕ) → db.next_id ≤ j → select j db.ledger_entries ≡ none

pub record IsOrderly (t : Treasury) : Type 0 where
  pub fresh : IsFresh t.ledger
  pub handed : (id : ℕ) → (times id t.submitted ≡ 0) ⊎ Handed id t

Advance-claimed : {s s' : LedgerStatus} → Advance s s' → is_pending s' ≡ false
Advance-claimed Advance.claim = refl
Advance-claimed Advance.refuse = refl
Advance-claimed Advance.pay = refl
Advance-claimed Advance.give_up = refl

moved_on :
    {s s' : LedgerStatus} → (s' ≡ s) ⊎ Advance s s' → is_pending s ≡ false → is_pending s' ≡ false
moved_on (inl same) h = rw same h
moved_on (inr step) h = Advance-claimed step

Handed-Moved :
    (id : ℕ) (t : Treasury) (db : LedgerDb)
    → Moved t.ledger.ledger_entries db.ledger_entries
    → SameIds t.ledger db
    → Handed id t
    → Handed id (with_ledger db t)
Handed-Moved id t db moved same h =
    let (e', here, follows) = moved id h.entry h.here in
    record {
      once = h.once;
      old = rw (same.next) (h.old);
      entry = e';
      here = here;
      claimed = moved_on follows.status h.claimed;
    }

-- A call of the ledger that gives out no id and moves requests along keeps the treasury orderly.
pub ledger-IsOrderly :
    (t : Treasury) (db : LedgerDb)
    → Moved t.ledger.ledger_entries db.ledger_entries
    → SameIds t.ledger db
    → IsOrderly t
    → IsOrderly (with_ledger db t)
ledger-IsOrderly t db moved same o = record {
  fresh = λ j h. same.absent j (o.fresh j (rw (sym same.next) h));
  handed = λ id. elim (o.handed id) [
    | inl never ↦ inl never
    | inr h ↦ inr (Handed-Moved id t db moved same h)
  ];
}

-- The request `id` was claimed and not handed over yet.
record Claimed (id : ℕ) (t : Treasury) : Type 0 where
  never : times id t.submitted ≡ 0
  old : id < t.ledger.next_id
  entry : LedgerEntry
  here : select id t.ledger.ledger_entries ≡ some entry
  claimed : is_pending entry.status ≡ false

abbrev hand_over : ℕ → Treasury → Treasury
hand_over id t = record t { submitted = id ∷ t.submitted }

Handed-other :
    (id j : ℕ) (t : Treasury) → (id == j) ≡ false → Handed j t → Handed j (hand_over id t)
Handed-other id j t other h = record {
  once = ground (arith, h.once);
  old = h.old;
  entry = h.entry;
  here = h.here;
  claimed = h.claimed;
}

Handed-first :
    (id j : ℕ) (t : Treasury) → (id == j) ≡ true → Claimed id t → Handed j (hand_over id t)
Handed-first id j t same c =
    let is : j ≡ id = ground (arith, ==_iff id j) in
    record {
      once = ground (arith, c.never);
      old = rw is (c.old);
      entry = c.entry;
      here = rw is (c.here);
      claimed = c.claimed;
    }

hand_over-IsOrderly :
    (id : ℕ) (t : Treasury) → Claimed id t → IsOrderly t → IsOrderly (hand_over id t)
hand_over-IsOrderly id t c o = record {
  fresh = o.fresh;
  handed = λ j. elim (Bool-cases (id == j)) [
    | inl same ↦ inr (Handed-first id j t same c)
    | inr other ↦ elim (o.handed j) [
      | inl never ↦ inl (ground arith)
      | inr h ↦ inr (Handed-other id j t other h)
    ]
  ];
}

fail-IsOrderly : (id : ℕ) (t : Treasury) → IsOrderly t → IsOrderly (fail_request id t)
unfolding fail_request
fail-IsOrderly id t =
    ledger-IsOrderly t (mark_withdrawal_failed id t.ledger).1 (fail-Moved id t.ledger)
      (fail-SameIds id t.ledger)

answer-IsOrderly :
    (hash : ℕ) (p : Result LedgerEntry × LedgerDb) (t : Treasury)
    → IsOrderly (with_ledger p.1 t)
    → IsOrderly (answer_confirmed hash p t).1
unfolding answer_confirmed
answer-IsOrderly hash (ok e, db) t o = o
answer-IsOrderly hash (err x, db) t o = o

after_submission-IsOrderly :
    (id : ℕ) (s : Submission) (t : Treasury) → IsOrderly t → IsOrderly (after_submission id s t).1
unfolding after_submission
after_submission-IsOrderly id not_sent t o = fail-IsOrderly id t o
after_submission-IsOrderly id (reverted hash) t o = fail-IsOrderly id t o
after_submission-IsOrderly id (unconfirmed hash) t o = o
after_submission-IsOrderly id (mined hash) t o =
    answer-IsOrderly hash (mark_withdrawal_confirmed id hash t.ledger) t (
      ledger-IsOrderly t (mark_withdrawal_confirmed id hash t.ledger).1
        (confirm-Moved id hash t.ledger) (confirm-SameIds id hash t.ledger) o)

submit-IsOrderly :
    (id : ℕ) (r : NodeReplies) (t : Treasury)
    → Claimed id t
    → IsOrderly t
    → IsOrderly (submit id r t).1
unfolding submit
submit-IsOrderly id r t c o =
    after_submission-IsOrderly id (submit_tx r) (hand_over id t) (hand_over-IsOrderly id t c o)

pay-IsOrderly :
    (id : ℕ) (r : NodeReplies) (e : LedgerEntry) (t : Treasury)
    → Claimed id t
    → IsOrderly t
    → IsOrderly (pay id r e t).1
unfolding pay
pay-IsOrderly id r e t c o = ground (arith, fail-IsOrderly id t o, submit-IsOrderly id r t c o)

after_claim-IsOrderly :
    (id : ℕ) (r : NodeReplies) (p : Result LedgerEntry × LedgerDb) (t : Treasury)
    → IsOrderly (with_ledger p.1 t)
    → ((e : LedgerEntry) → p.0 ≡ ok e → Claimed id (with_ledger p.1 t))
    → IsOrderly (after_claim id r p t).1
unfolding after_claim
after_claim-IsOrderly id r (ok e, db) t o claims =
    pay-IsOrderly id r e (with_ledger db t) (claims e refl) o
after_claim-IsOrderly id r (err x, db) t o claims = o

set_processing-claimed :
    (e : LedgerEntry) {e' : LedgerEntry}
    → e' ≡ set_status processing e
    → is_pending e'.status ≡ false
set_processing-claimed e is = rw is refl

-- A request that was claimed just now was never handed over before.
process-Claimed :
    (id : ℕ) (t : Treasury) (e' : LedgerEntry) (d : LedgerDb)
    → IsOrderly t
    → mark_withdrawal_processing id t.ledger ≡ (ok e', d)
    → SameIds t.ledger d
    → Claimed id (with_ledger d t)
process-Claimed id t e' d o h same =
    let (e, present, was, is, here) = process_claims id t.ledger h in
    record {
      never = elim (o.handed id) [
        | inl never ↦ never
        | inr handed ↦
            let here = handed.here in
            let claimed = handed.claimed in
            let is : handed.entry ≡ e = ground arith in absurd (ground arith)
      ];
      old = elim (dec_lt id d.next_id) [
        | yes before ↦ before
        | no after ↦ absurd (ground (arith, o.fresh id (omega (arith, same.next))))
      ];
      entry = e';
      here = here;
      claimed = set_processing-claimed e is;
    }

pub process-IsOrderly :
    (id : ℕ) (r : NodeReplies) (t : Treasury)
    → IsOrderly t
    → IsOrderly (process_withdrawal_request id r t).1
unfolding process_withdrawal_request
process-IsOrderly id r t o =
    let same = process-SameIds id t.ledger in
    after_claim-IsOrderly id r (mark_withdrawal_processing id t.ledger) t
      (ledger-IsOrderly t (mark_withdrawal_processing id t.ledger).1 (process-Moved id t.ledger)
        same o)
      λ e' done.
        process-Claimed id t e' (mark_withdrawal_processing id t.ledger).1 o (ground arith) same
