-- ===== src/Chain/Signer.antt =====
-- `submitTx` and SubmitWithdrawal (internal/chain/signer.go). What the node and the key reply is a
-- parameter; hashes are numbers.
use dex_backend.Base.{ℕ, Bool, true, false, Option, none, some}

-- The replies to PendingNonceAt, SuggestGasPrice, EstimateGas, the signing (with the hash), the
-- sending, and WaitMined: no receipt, or one that tells whether the transaction succeeded.
pub record NodeReplies : Type 0 where
  pub nonce : Option ℕ
  pub gas_price : Option ℕ
  pub gas_limit : Option ℕ
  pub signed : Option ℕ
  pub sent : Bool
  pub receipt : Option Bool

-- The hash and the error that are returned: no hash; a hash and an error of the wait; a hash and
-- ErrTxReverted; a hash and no error.
pub data Submission : Type 0 where
  not_sent : Submission
  unconfirmed reverted mined : ℕ → Submission

wait_mined : ℕ → Option Bool → Submission
wait_mined hash none = unconfirmed hash
wait_mined hash (some false) = reverted hash
wait_mined hash (some true) = mined hash

send : Option ℕ → Bool → Option Bool → Submission
unfolding wait_mined
send none sent receipt = not_sent
send (some hash) false receipt = not_sent
send (some hash) true receipt = wait_mined hash receipt

sign_and_send : Option ℕ → Option ℕ → Option ℕ → NodeReplies → Submission
unfolding send
sign_and_send (some nonce) (some price) (some limit) r = send r.signed r.sent r.receipt
sign_and_send _ _ _ r = not_sent

unfoldable pub submit_tx : NodeReplies → Submission
unfolding sign_and_send
submit_tx r = sign_and_send r.nonce r.gas_price r.gas_limit r
