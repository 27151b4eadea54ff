-- ===== src/Ledger/Withdrawals/Lifecycle.antt =====
-- The life of a withdrawal request, over any sequence of the four calls that move it.
use mathlib.Core.Path.{subst}
use dex_backend.Base.{ℕ, ◌≡◌, ◌∙◌, refl, inl, inr, some, List, [], ◌∷◌}
use dex_backend.Base.Key.{nat_key}
use dex_backend.Table.{select}
use dex_backend.Schema.{LedgerStatus, LedgerEntry, LedgerDb}
use dex_backend.Ledger.Withdrawals.{
  mark_withdrawal_processing, mark_withdrawal_confirmed, mark_withdrawal_failed,
  reject_withdrawal_request,
}
use dex_backend.Ledger.Withdrawals.Moves.{
  Advance, Follows, Moved, process-Moved, fail-Moved, reject-Moved, confirm-Moved,
}

pub data Advances : LedgerStatus → LedgerStatus → Type 0 where
  here : {s : LedgerStatus} → Advances s s
  then_ : {s t u : LedgerStatus} → Advance s t → Advances t u → Advances s u

pub data Call : Type 0 where
  process fail reject : ℕ → Call
  confirm : ℕ → ℕ → Call

abbrev pub apply : Call → LedgerDb → LedgerDb
apply (process id) db = (mark_withdrawal_processing id db).1
apply (fail id) db = (mark_withdrawal_failed id db).1
apply (reject id) db = (reject_withdrawal_request id db).1
apply (confirm id hash) db = (mark_withdrawal_confirmed id hash db).1

unfoldable pub run : List Call → LedgerDb → LedgerDb
run [] db = db
run (c ∷ cs) db = run cs (apply c db)

apply-Moved : (c : Call) (db : LedgerDb) → Moved db.ledger_entries (apply c db).ledger_entries
apply-Moved (process id) db = process-Moved id db
apply-Moved (fail id) db = fail-Moved id db
apply-Moved (reject id) db = reject-Moved id db
apply-Moved (confirm id hash) db = confirm-Moved id hash db

-- The entry is about the same request, and its status has gone along the diagram.
pub record Descends (e e' : LedgerEntry) : Type 0 where
  pub user : e'.user ≡ e.user
  pub kind : e'.kind ≡ e.kind
  pub token : e'.token ≡ e.token
  pub amount : e'.amount ≡ e.amount
  pub status : Advances e.status e'.status

Follows-Descends : {a b c : LedgerEntry} → Follows a b → Descends b c → Descends a c
Follows-Descends {a} {b} {c} f d = record {
  user = d.user ∙ f.user;
  kind = d.kind ∙ f.kind;
  token = d.token ∙ f.token;
  amount = d.amount ∙ f.amount;
  status = elim f.status [
    | inl same ↦ subst (λ s. Advances s c.status) same d.status
    | inr step ↦ then_ step d.status
  ];
}

-- After any calls in any order, an entry is still there, about the same user, kind, token and
-- amount, and its status has only gone along the diagram: from pending to processing or rejected,
-- and from processing to confirmed or failed.
pub run-Descends :
    (cs : List Call) (db : LedgerDb) (id : ℕ) (e : LedgerEntry)
    → select id db.ledger_entries ≡ some e
    → (e' : LedgerEntry) × (select id (run cs db).ledger_entries ≡ some e') × Descends e e'
unfolding run
run-Descends [] db id e h =
    (e, h, record { user = refl; kind = refl; token = refl; amount = refl; status = here })
run-Descends (c ∷ cs) db id e h =
    let (a, present, follows) = apply-Moved c db id e h in
    let (e', later, descends) = run-Descends cs (apply c db) id a present in
    (e', later, Follows-Descends follows descends)
