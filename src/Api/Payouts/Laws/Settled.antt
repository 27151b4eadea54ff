-- ===== src/Api/Payouts/Laws/Settled.antt =====
-- AdminApproveWithdrawal and AdminRecoverWithdrawal of a request that is settled already.
use dex_backend.Base.{
  ℕ, ◌≤◌, ◌≡◌, refl, ap, Bool, true, false, Option, none, some, arith, Bool-cases, inl, inr,
}
use dex_backend.Base.Key.{nat_key}
use dex_backend.Result.{ok, err, Err}
use dex_backend.Text.Bytes.{bytes, to_lower, Str, str_eq}
use dex_backend.Table.{select}
use dex_backend.Schema.{LedgerEntry}
use dex_backend.Tx.{◌>>=◌, transact}
use dex_backend.Ledger.Withdrawals.{
  is_pending, is_processing, requests, move_request, mark_withdrawal_processing,
  mark_withdrawal_failed, reject_withdrawal_request,
}
use dex_backend.Chain.Signer.{NodeReplies}
use dex_backend.Api.{Claims}
use dex_backend.Api.Payouts.{
  Treasury, action_of, Reply, refused, after_claim, after_action, process_withdrawal_request,
  process_if_signer, fail_or_retry, approve_or_reject, as_admin, with_id, admin_approve_withdrawal,
  admin_recover_withdrawal,
}

-- Answered with an error, and nothing has changed.
abbrev pub Refuses : Reply × Treasury → Treasury → Type 0
Refuses answer t = (code : ℕ) × (x : Err) × (answer ≡ (refused code x, t)) × (400 ≤ code)

module _ (id : ℕ) (e : LedgerEntry) (t : Treasury)
    (found : select id t.ledger.ledger_entries ≡ some e)
    (unclaimable : is_pending e.status ≡ false) where
  process-Refuses : (r : NodeReplies) → Refuses (process_withdrawal_request id r t) t
  unfolding process_withdrawal_request after_claim
  process-Refuses r =
      let claim : mark_withdrawal_processing id t.ledger ≡ (err Err.not_pending, t.ledger) =
        unfold mark_withdrawal_processing move_request requests transact ◌>>=◌ in ground arith in
      (400, Err.not_pending, ap (λ p. after_claim id r p t) claim, omega arith)

  process_if_signer-Refuses :
      (signer : Bool) (r : NodeReplies) → Refuses (process_if_signer signer id r t) t
  unfolding process_if_signer
  process_if_signer-Refuses false r = (503, Err.no_signer, refl, omega arith)
  process_if_signer-Refuses true r = process-Refuses r

  reject-Refuses :
      (word : Str) → Refuses (after_action word (reject_withdrawal_request id t.ledger) t) t
  unfolding after_action
  reject-Refuses word =
      let rejection : reject_withdrawal_request id t.ledger ≡ (err Err.not_pending, t.ledger) =
        unfold reject_withdrawal_request move_request requests transact ◌>>=◌ in ground arith in
      (400, Err.not_pending, ap (λ p. after_action word p t) rejection, omega arith)

  approve_or_reject-Refuses :
      (signer : Bool) (action : Str) (r : NodeReplies)
      → Refuses (approve_or_reject signer id action r t) t
  unfolding approve_or_reject
  approve_or_reject-Refuses signer action r = elim (Bool-cases (str_eq action (bytes "reject"))) [
    | inl rejects ↦ rw rejects (reject-Refuses (bytes "rejected"))
    | inr other ↦ elim (Bool-cases (str_eq action (bytes "approve"))) [
      | inl approves ↦ rw (other, approves) (process_if_signer-Refuses signer r)
      | inr neither ↦ rw (other, neither) (400, Err.bad_action, refl, omega arith)
    ]
  ]

  fail_or_retry-same :
      (signer : Bool) (action : Str) (r : NodeReplies)
      → is_processing e.status ≡ false
      → (fail_or_retry signer id action r t).1 ≡ t
  unfolding fail_or_retry after_action
  fail_or_retry-same signer action r done = elim (Bool-cases (str_eq action (bytes "fail"))) [
    | inl fails ↦
        let kept : mark_withdrawal_failed id t.ledger ≡ (ok tt, t.ledger) =
          unfold mark_withdrawal_failed move_request requests transact ◌>>=◌ in ground arith in
        rw (fails, kept) refl
    | inr other ↦ elim (Bool-cases (str_eq action (bytes "retry"))) [
      | inl retries ↦
          let (_, _, refuses, _) = process_if_signer-Refuses signer r in
          rw (other, retries) (ap (λ (p : Reply × Treasury). p.1) refuses)
      | inr neither ↦ rw (other, neither) refl
    ]
  ]

-- A withdrawal request that is settled, neither pending nor processing, is not paid again and not
-- changed by any admin call, whoever makes it, whatever the action's text, the node's replies, and
-- whether or not a signer is configured: an approval or rejection is answered with an error status
-- and changes nothing, and a recovery changes nothing.
pub settled_stays :
    (admins : Str → Bool) (c : Option Claims) (signer : Bool) (id : ℕ) (e : LedgerEntry)
    (action : Str) (r : NodeReplies) (t : Treasury)
    → select id t.ledger.ledger_entries ≡ some e
    → is_pending e.status ≡ false
    → is_processing e.status ≡ false
    → Refuses (admin_approve_withdrawal admins c signer (some id) action r t) t
      × ((admin_recover_withdrawal admins c signer (some id) action r t).1 ≡ t)
unfolding admin_approve_withdrawal admin_recover_withdrawal as_admin with_id
settled_stays admins none signer id e action r t found waits works =
    ((401, Err.not_authenticated, refl, omega arith), refl)
settled_stays admins (some c) signer id e action r t found waits works =
    elim (Bool-cases (admins (to_lower c.wallet_address))) [
      | inl admin ↦ rw admin (
        approve_or_reject-Refuses id e t found waits signer (action_of (bytes "approve") action) r,
        fail_or_retry-same id e t found waits signer (action_of (bytes "retry") action) r works,
      )
      | inr other ↦ rw other ((403, Err.forbidden, refl, omega arith), refl)
    ]
