-- ===== src/Api/Payouts.antt =====
-- WithdrawRequest, `processWithdrawalRequest`, AdminApproveWithdrawal and AdminRecoverWithdrawal
-- (internal/api/wallet.go).
pub mod Laws
use dex_backend.Base.{
  ℕ, Bool, true, false, not, ◌&&◌, Option, none, some, List, [], ◌∷◌, ◌==◌, if◌then◌else◌,
}
use dex_backend.Result.{Result, ok, err, Err}
use dex_backend.Text.Bytes.{Str, bytes, str_eq, trim_space, to_lower}
use dex_backend.Text.Decimal.{string}
use dex_backend.Asset.{Asset, asset_eq, usdc, name}
use dex_backend.Schema.{LedgerEntry, LedgerDb}
use dex_backend.Ledger.{validate_positive_amount}
use dex_backend.Ledger.Withdrawals.{
  insert_withdrawal_request, mark_withdrawal_processing, mark_withdrawal_confirmed,
  mark_withdrawal_failed, reject_withdrawal_request,
}
use dex_backend.Chain.Signer.{
  NodeReplies, Submission, not_sent, unconfirmed, reverted, mined, submit_tx,
}
use dex_backend.Api.{Claims}

-- The ledger, and the requests that were handed to the signer, the latest first.
pub record Treasury : Type 0 where
  pub ledger : LedgerDb
  pub submitted : List ℕ

-- The response: the payout's hash and asset, the word of an admin's action, or an error with its
-- HTTP status.
pub data Reply : Type 0 where
  paid : ℕ → Asset → Reply
  did : Str → Reply
  refused : ℕ → Err → Reply

abbrev pub with_ledger : LedgerDb → Treasury → Treasury
with_ledger db t = record t { ledger = db }

-- MarkWithdrawalFailed, its error ignored.
pub fail_request : ℕ → Treasury → Treasury
fail_request id t = with_ledger (mark_withdrawal_failed id t.ledger).1 t

-- `status` and error after the ledger's update.
pub answer_confirmed : ℕ → Result LedgerEntry × LedgerDb → Treasury → Reply × Treasury
answer_confirmed hash (ok e, db) t = (paid hash e.token, with_ledger db t)
answer_confirmed hash (err x, db) t = (refused 500 Err.ledger_update_failed, with_ledger db t)

-- A transaction that was not sent or was reverted fails the request. One whose receipt did not come
-- leaves it processing.
pub after_submission : ℕ → Submission → Treasury → Reply × Treasury
unfolding fail_request answer_confirmed
after_submission id not_sent t = (refused 502 Err.submit_failed, fail_request id t)
after_submission id (reverted hash) t = (refused 502 Err.unconfirmed_payout, fail_request id t)
after_submission id (unconfirmed hash) t = (refused 502 Err.unconfirmed_payout, t)
after_submission id (mined hash) t =
    answer_confirmed hash (mark_withdrawal_confirmed id hash t.ledger) t

pub submit : ℕ → NodeReplies → Treasury → Reply × Treasury
unfolding after_submission
submit id r t = after_submission id (submit_tx r) (record t { submitted = id ∷ t.submitted })

pub pay : ℕ → NodeReplies → LedgerEntry → Treasury → Reply × Treasury
unfolding submit fail_request
pay id r e t =
    if not (asset_eq e.token usdc)
    then (refused 400 Err.only_usdc, fail_request id t)
    else if e.amount == 0
    then (refused 500 Err.not_positive, fail_request id t)
    else submit id r t

pub after_claim : ℕ → NodeReplies → Result LedgerEntry × LedgerDb → Treasury → Reply × Treasury
unfolding pay
after_claim id r (ok e, db) t = pay id r e (with_ledger db t)
after_claim id r (err x, db) t = (refused 400 x, with_ledger db t)

unfoldable pub process_withdrawal_request : ℕ → NodeReplies → Treasury → Reply × Treasury
unfolding after_claim
process_withdrawal_request id r t = after_claim id r (mark_withdrawal_processing id t.ledger) t

unfoldable pub request_asset : Str → Str
request_asset asset = if str_eq (trim_space asset) [] then name usdc else asset

pub after_request : NodeReplies → Result ℕ × LedgerDb → Treasury → Reply × Treasury
after_request r (ok id, db) t = process_withdrawal_request id r (with_ledger db t)
after_request r (err x, db) t = (refused 400 x, with_ledger db t)

pub request_amount : NodeReplies → Claims → Str → Result ℕ → Treasury → Reply × Treasury
unfolding after_request
request_amount r c asset (err x) t = (refused 400 x, t)
request_amount r c asset (ok x) t =
    after_request r (insert_withdrawal_request c.user_id c.wallet_address asset (string x) t.ledger)
      t

-- `signer` tells whether a treasury signer is configured.
unfoldable pub withdraw_request :
    Option Claims → Bool → Str → Str → NodeReplies → Treasury → Reply × Treasury
unfolding request_amount
withdraw_request none signer amount asset r t = (refused 401 Err.not_authenticated, t)
withdraw_request (some c) false amount asset r t = (refused 503 Err.no_signer, t)
withdraw_request (some c) true amount asset r t =
    if str_eq (request_asset asset) (name usdc)
    then request_amount r c (request_asset asset) (validate_positive_amount amount) t
    else (refused 400 Err.only_usdc, t)

pub after_action : Str → Result (Unit {0}) × LedgerDb → Treasury → Reply × Treasury
after_action word (ok _, db) t = (did word, with_ledger db t)
after_action word (err x, db) t = (refused 400 x, with_ledger db t)

-- An action that is blank takes the default.
abbrev pub action_of : Str → Str → Str
action_of default action =
    let a = to_lower (trim_space action) in if str_eq a [] then default else a

pub process_if_signer : Bool → ℕ → NodeReplies → Treasury → Reply × Treasury
process_if_signer false id r t = (refused 503 Err.no_signer, t)
process_if_signer true id r t = process_withdrawal_request id r t

pub approve_or_reject : Bool → ℕ → Str → NodeReplies → Treasury → Reply × Treasury
unfolding after_action process_if_signer
approve_or_reject signer id action r t =
    if str_eq action (bytes "reject")
    then after_action (bytes "rejected") (reject_withdrawal_request id t.ledger) t
    else if not (str_eq action (bytes "approve"))
    then (refused 400 Err.bad_action, t)
    else process_if_signer signer id r t

pub fail_or_retry : Bool → ℕ → Str → NodeReplies → Treasury → Reply × Treasury
unfolding after_action process_if_signer
fail_or_retry signer id action r t =
    if str_eq action (bytes "fail")
    then after_action (bytes "failed") (mark_withdrawal_failed id t.ledger) t
    else if str_eq action (bytes "retry")
    then process_if_signer signer id r t
    else (refused 400 Err.bad_action, t)

-- A blank request id is none.
pub with_id : Option ℕ → (ℕ → Treasury → Reply × Treasury) → Treasury → Reply × Treasury
with_id none act t = (refused 400 Err.id_required, t)
with_id (some id) act t = act id t

-- The admins are the wallets of an allowlist, in lower case.
pub as_admin :
    (Str → Bool) → Option Claims → (Treasury → Reply × Treasury) → Treasury → Reply × Treasury
as_admin admins none act t = (refused 401 Err.not_authenticated, t)
as_admin admins (some c) act t =
    if admins (to_lower c.wallet_address) then act t else (refused 403 Err.forbidden, t)

unfoldable pub admin_approve_withdrawal :
    (Str → Bool) → Option Claims → Bool → Option ℕ → Str → NodeReplies → Treasury → Reply × Treasury
unfolding as_admin with_id approve_or_reject
admin_approve_withdrawal admins c signer id action r =
    as_admin admins c
      (with_id id (λ i. approve_or_reject signer i (action_of (bytes "approve") action) r))

unfoldable pub admin_recover_withdrawal :
    (Str → Bool) → Option Claims → Bool → Option ℕ → Str → NodeReplies → Treasury → Reply × Treasury
unfolding as_admin with_id fail_or_retry
admin_recover_withdrawal admins c signer id action r =
    as_admin admins c
      (with_id id (λ i. fail_or_retry signer i (action_of (bytes "retry") action) r))
